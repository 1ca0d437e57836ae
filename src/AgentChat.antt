-- ===== src/AgentChat.antt =====
-- lib/agent-chat-state.ts: the reducer of the admin chat, over the types of lib/agents.ts.
-- `J` stands for the JSON values that the reducer passes on (`unknown` in the source).
pub mod State
pub mod Tools
pub mod Events
pub mod Wire
pub mod Accounting
pub mod History
pub mod Calls
pub mod Rounds
unfoldable pub use State.*
unfoldable pub use Events.*
