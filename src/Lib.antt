-- ===== src/Lib.antt =====
-- Verification library of the web front end of Parallax (src/frontend): the clients of its streams, its
-- state, and what its components decide and show.
--
-- How the program works. `ClusterProvider` (src/frontend/src/services/cluster.tsx) opens a stream of status
-- messages with the client of src/frontend/src/services/http-stream.ts and keeps the cluster, its nodes and
-- the chosen model. `ChatProvider` (src/frontend/src/services/chat.tsx) sends the messages of the chat with
-- `createSSE`, reads the answer as an event stream, and has its text parsed by
-- src/frontend/src/services/chat-helper.tsx. The router, the pages and the components show both states and
-- call their actions.
--
-- Which file models which part:
--   * Prelude: shared names, Boolean tests and lists over native numbers; Text: strings as lists of code
--     units, with the string methods that the source calls.
--   * LineBuffer, StreamClient and HttpStream: `createHttpStreamFactory`. LineBuffer.feed is the split
--     of the buffer. HttpStream.step takes one event: a call of `send` or `abort`, a timer, or a
--     callback of the fetch (`response`, `chunk`, `done`, `reject`, `finish`). Several requests can be
--     in flight.
--   * Json and Sse: `walk` and `processLines`. ChatHelper: the two parsers of raw answers.
--   * Chat: the messages and the updater of `onMessage`; Chat/Provider: the actions `generate`, `stop`
--     and `clear`, with `connect` and `disconnect`; Chat/Connection: the events of a request;
--     Chat/Requests: which events send a request; Chat/Connection/Stop: what becomes of a chat that was
--     stopped; Chat/Answer: reading a whole answer.
--   * Cluster: the state of the provider; Cluster/Update: the updaters of a status message;
--     Cluster/Setup: `init`; Cluster/ModelName: the effect on the model's name; Cluster/Info: the events
--     together; Cluster/Stream: the provider with the client of its status stream, whose outputs become
--     the provider's events.
--   * Api: the two calls of src/frontend/src/services/api.ts, with the answers that `updateModelList` and
--     `init` get. App: the two applications of src/frontend/src/App.tsx, and the host that each
--     provides; App/Contexts: the order of the providers.
--   * Services: the two providers together; the chat reads the status and the model of the cluster.
--     Cluster/Stream/Words and Services/Words: what the status stream last told; Services/Sending and
--     Services/Mirror: what follows for the requests of the chat and for the cluster's information.
--   * Hooks: `useConst` and `useRefCallback`; Hooks/Latest: which callback is called. Router: `MainRouter`
--     and `ChatRouter`. Components: chat-input.tsx, chat-messages.tsx, node-list.tsx, model-select.tsx,
--     number-input.tsx, alert-dialog.tsx with use-dialog.tsx (AlertDialog/View: what it shows),
--     drawer-layout.tsx (DrawerLayout/View: its sidebar and the contents of its dialogs), join-command.tsx
--     (in Copied, with the copy button of a message), chat-markdown.tsx, notification.tsx with the snacks
--     of notistack.tsx, main-layout.tsx with dot-pulse.tsx, and title-icon.tsx. Pages: setup.tsx and
--     join.tsx.
--   * Theme: the palette of src/frontend/src/themes; Theme/Button, Theme/Alert and Theme/Controls: the rules
--     for the colors and the sizes of buttons and alerts, and of chips, sliders and linear progress.
--   * Examples: the theorems at concrete inputs.
--
-- How state is modelled. A provider, a client or a component with state is a record of its variables, and
-- whatever the user, a timer, the network or a service does to it is an event; a step gives the next state,
-- or `none` where the event cannot happen. React renders between two events, so that a handler sees the
-- values of the last render, unless the source keeps an earlier one, as the status handler of the cluster
-- does with the first, and `init` with the one in which it was called. An exception is a value of its own,
-- or the flag `crashed` when an updater throws.
--
-- Bounds and fuel. The two parsers loop on fuel, one more than the length of the trimmed text: each round
-- removes or consumes at least one code unit, so that this is enough. All other loops are recursive on a
-- list.
--
-- What is taken from outside. `JSON.parse` is a function that the readers get as an argument. A chunk is its
-- decoded text. `fetch`, timers, handlers of an owner and the validation of a form come as events. Numbers
-- of JSON, pixels, times and counts are natural numbers; a text of a number is an argument. A completion
-- without an id or a time has the empty text or 0 there, and a role that is no text counts as absent. How
-- react-router compares a route with a path is an argument. The progress of a countdown is the exact quotient,
-- and a length of the theme a number of fractions of a rem. The style engine, the Markdown renderer with
-- its plugins, and the queue of the snacks are libraries, which the model does not enter.
--
-- What is not modelled: icons, fonts, mounting, and the styles of which no rule depends on a property; the
-- built bundle; and the Python, C++ and Metal parts behind the HTTP interface.
mod Prelude
pub mod Text
pub mod LineBuffer
pub mod StreamClient
pub mod HttpStream
pub mod Json
pub mod ChatHelper
pub mod Sse
pub mod Chat
pub mod Cluster
pub mod Api
pub mod App
pub mod Theme
pub mod Hooks
pub mod Router
pub mod Services
pub mod Components
pub mod Pages
mod Examples
