-- ===== src/Bot/Handlers.antt =====
-- internal/bot/handlers: what a confirmed command does.
pub mod Chat
pub mod Kube
pub mod Markdown
pub mod Metrics
pub mod Others
mod Tests
