-- ===== src/Account.antt =====
-- What internal/whatsapp does with a user's account besides the bot: the master key, the repeated
-- authorisation and the check of the subscription.
pub mod MasterKey
pub mod Reauth
pub mod Subscription
pub mod Examples
