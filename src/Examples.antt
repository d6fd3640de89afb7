-- ===== src/Examples.antt =====
-- The theorems at concrete inputs, and tests.
mod Parsers
mod Streams
mod Services
mod Views
mod Together
mod Chats
mod Answers
mod Clusters
mod Components
