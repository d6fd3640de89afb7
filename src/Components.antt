-- ===== src/Components.antt =====
-- src/frontend/src/components: what the parts of the page show, and what their handlers do.
pub mod ChatInput
pub mod AlertDialog
pub mod NodeList
pub mod ChatMarkdown
pub mod Copied
pub mod ChatMessages
pub mod ModelSelect
pub mod DrawerLayout
pub mod NumberInput
pub mod MainLayout
pub mod TitleIcon
pub mod Notification
