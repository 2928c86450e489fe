-- ===== src/Feishu.antt =====
-- What the chat client hands to the bot (feishu/): messages and clicks on the buttons of cards.
pub mod Handler
pub mod Buttons
pub mod Tests
