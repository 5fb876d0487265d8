-- ===== src/Logger/Stopped.antt =====
-- What is left when the logger is stopped.
use hft_sys.Common.{
  Option, ℕ, ◌≡◌, refl, sym, ap, subst, ◌∙◌, List, [], ◌∷◌, ◌++◌, append_assoc, append-nil, All,
  length, Bool, true, false, ltb, if◌then◌else◌, ok,
}
use hft_sys.Text.{Text}
use hft_sys.LfQueue.Refine.{IsValid, contents}
use hft_sys.Logger.{LogElement}
use hft_sys.Logger.Thread.{
  Logger, LogPc, testing, filling, finished, LogEvent, called, turned, stopping, run_logger,
}
use hft_sys.Logger.Journal.{Fits, Journal, note_turn, note, notes, journal, CallFits}
use hft_sys.Logger.Written.{run_logger-notes}

-- The thread is not in a round.
abbrev pub IsBetweenRounds : LogPc → Type 0
IsBetweenRounds testing = Unit
IsBetweenRounds (filling i buffer) = ⊥
IsBetweenRounds finished = Unit

-- How a journal goes on from `j`: its file stays, and what waits stays first in the queue.
abbrev Frozen : Journal → Journal → Type 0
Frozen j k = (k.file ≡ j.file) × ((more : List LogElement) × (k.waiting ≡ j.waiting ++ more))

Frozen-call :
    (e : LogElement) (t : Bool) (j k : Journal)
    → Frozen (record j { waiting = if t then j.waiting ++ e ∷ [] else j.waiting }) k
    → Frozen j k
Frozen-call e true j k (file, (more, h)) =
    (file, (e ∷ more, h ∙ append_assoc j.waiting (e ∷ []) more))
Frozen-call e false j k h = h

-- A step of the thread of a stopped logger, between two rounds.
note_turn-stopped :
    (pc : LogPc) (now : Text) (room : Option ℕ) (j : Journal)
    → j.running ≡ false
    → IsBetweenRounds pc
    → IsBetweenRounds j.thread
    → (pc' : LogPc) × IsBetweenRounds pc' × (note_turn pc now room j ≡ record j { thread = pc' })
unfolding note_turn
note_turn-stopped testing now room j e h out = (finished, tt, rw (e) refl)
note_turn-stopped (filling i buffer) now room j e h out = absurd h
note_turn-stopped finished now room j e h out = (j.thread, out, refl)

notes-Frozen :
    (capacity : ℕ) (events : List LogEvent) (j : Journal)
    → j.running ≡ false
    → IsBetweenRounds j.thread
    → Frozen j (notes capacity events j)
unfolding notes note
notes-Frozen capacity [] j e out = (refl, ([], sym (append-nil j.waiting)))
notes-Frozen capacity (called level format args ∷ events) j e out =
    Frozen-call (record { level = level; format_string = format; args = args })
      (ltb (length j.waiting) capacity) j
      (notes capacity events (note capacity (called level format args) j))
      (notes-Frozen capacity events (note capacity (called level format args) j) e out)
notes-Frozen capacity (turned now room ∷ events) j e out =
    let (pc, still, same) = note_turn-stopped j.thread now room j e out out in
    subst (λ k. Frozen j (notes capacity events k)) (sym same)
      (notes-Frozen capacity events (record j { thread = pc }) e still)
notes-Frozen capacity (stopping ∷ events) j e out =
    notes-Frozen capacity events (record j { running = false }) refl out

-- Once `~Logger` has cleared `running_` and the logger's thread is between two rounds, nothing more is written,
-- whatever the thread and the callers of `log` do: what waits at that time stays in the queue.
pub stopped-keeps :
    (events : List LogEvent) (l : Logger)
    → IsValid l.queue
    → All Fits (contents l.queue)
    → All CallFits events
    → l.running ≡ false
    → IsBetweenRounds l.thread
    → (l' : Logger) × (run_logger events l ≡ ok l')
      × (l'.file ≡ l.file)
      × ((more : List LogElement) × (contents l'.queue ≡ contents l.queue ++ more))
stopped-keeps events l val fit h e out =
    let (l', runs, valid, same) = run_logger-notes events l val fit h in
    let (file, (more, waits)) = notes-Frozen l.queue.capacity events (journal l) e out in
    (l', runs, ap (λ j. j.file) same ∙ file, (more, ap (λ j. j.waiting) same ∙ waits))
