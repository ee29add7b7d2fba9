-- ===== src/Output.antt =====
-- What a diagnosis is shown as: the postmortem of the output package, and the message of notify/slack.py.
pub mod Files
pub mod Postmortem
pub mod Slack
