-- ===== src/Automator.antt =====
-- .agents/skills/bmad-story-automator/src/story_automator
pub mod Json
pub mod Hooks
pub mod Range
pub mod Sprint
pub mod Session
pub mod Policy
pub mod Agents
pub mod StoryKeys
pub mod Verify
pub mod Frontmatter
mod Tests
