-- ===== src/Sessions.antt =====
-- Terminal sessions: apps/desktop/src/store/sessions-store.ts and apps/desktop/src/types/session.ts.
pub mod Types
pub mod Titles
pub mod Tabs
pub mod Panes
pub mod History
pub mod Persist
pub mod Store
pub mod Counts
pub mod Updates
pub mod Moves
pub mod Opened
pub mod Steps
pub mod HistoryLaws
pub mod TitleLaws
pub mod CycleLaws
pub mod Reaping
pub mod PersistLaws
pub mod RatioLaws
pub mod Tests
pub mod Closing
pub mod Valid
