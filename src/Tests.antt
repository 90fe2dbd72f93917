-- ===== src/Tests.antt =====
-- Runs of the models on concrete inputs, and the theorems at them.
mod SmtpRun
mod Pop3Run
mod Formats
mod Packets
mod ImapRun
mod Mail
mod Policies
mod Reports
mod ClientRun
mod DkimRun
