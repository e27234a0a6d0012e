-- ===== src/Tests.antt =====
-- Concrete runs of the model: a toy platform that meets the laws, and each theorem at an input.
mod Toy
mod PolicyRuns
mod StorageRuns
mod KvRuns
mod TransitRuns
mod AuthRuns
mod ApiRuns
mod SiteRuns
mod ClientRuns
mod RunningRuns
mod InitRuns
mod LoginRuns
