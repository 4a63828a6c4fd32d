-- ===== src/Sync/Cas/Runs.antt =====
-- src/sync/cas-service.ts: what holds of a program whatever its store and its transport answer.
use content_lens.Prelude.{Option, List, ◌∷◌, JsString}
use content_lens.Sync.Envelope.{Envelope}
use content_lens.Sync.Journal.{Update}
use content_lens.Sync.Cas.{
  Program, returns, throws, reads_local, reads_base, writes_journal, writes_draft, commits_local,
  confirms_base, reads_remote, swaps, confirms, Read, Answer, RunResult, Commit,
}

-- What a run has done, and what it was answered.
pub data Event : Type 0 where
  local_was : Envelope → Event
  base_was : Option Envelope → Event
  journal : Update → Event
  draft : Envelope → Envelope → Envelope → JsString → Event
  committed : Commit → Event
  base_confirmed : Envelope → JsString → Event
  remote_was : Option Read → Event
  swapped : JsString → Envelope → Option Answer → Event
  asked : JsString → JsString → Option Answer → Event

-- Every run of a program that returns ends in a result and with events, the last first, of which the predicate holds,
-- after the events that there were.
unfoldable pub Ends : (List Event → RunResult → Type 0) → Program → List Event → Type 0
Ends P (returns r) es = P es r
Ends P throws es = Unit
Ends P (reads_local k) es = (e : Envelope) → Ends P (k e) (local_was e ∷ es)
Ends P (reads_base k) es = (o : Option Envelope) → Ends P (k o) (base_was o ∷ es)
Ends P (writes_journal u p) es = Ends P p (journal u ∷ es)
Ends P (writes_draft b l r t p) es = Ends P p (draft b l r t ∷ es)
Ends P (commits_local c p) es = Ends P p (committed c ∷ es)
Ends P (confirms_base e t p) es = Ends P p (base_confirmed e t ∷ es)
Ends P (reads_remote k) es = (o : Option Read) → Ends P (k o) (remote_was o ∷ es)
Ends P (swaps t e k) es = (o : Option Answer) → Ends P (k o) (swapped t e o ∷ es)
Ends P (confirms d t k) es = (o : Option Answer) → Ends P (k o) (asked d t o ∷ es)
