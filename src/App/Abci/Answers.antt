-- ===== src/App/Abci/Answers.antt =====
-- client/app/abci.go: what the callback of a finalized block cannot change.
use story.Action.{Action}
use story.Engine.State.{State}
