-- ===== src/Discord.antt =====
-- The Discord side: the webhook client, and the builders of the messages.
pub mod Webhook
pub mod Builders
pub mod MessageBuilder
