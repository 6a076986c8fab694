-- ===== src/Schemas.antt =====
-- app/schemas/project.py, brief.py and trend.py: the data that the orchestrator moves around. A
-- `str` enum is a data type with `value` for the text of each member. The `Any` of a metadata or
-- content dictionary is `Value`, which has the shapes that the program stores. Scores between 0.0
-- and 1.0 are counted in hundredths.
mod Enums
mod Records
unfoldable pub use Enums.*
unfoldable pub use Records.*
