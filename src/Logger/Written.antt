-- ===== src/Logger/Written.antt =====
-- The operations on the queue and on the file keep the journal.
use hft_sys.Common.{
  ℕ, suc, ◌≡◌, refl, sym, ap, ap₂, subst, ◌∙◌, List, [], ◌∷◌, ◌++◌, All, length, arith, Bool, true,
  false, Option, dec_lt, ltb, lt→ltb, le→ltb, if◌then◌else◌, Result, ok,
}
use hft_sys.LfQueue.{size}
use hft_sys.LfQueue.Refine.{IsValid, contents, push-full, push-room, pop-some}
use hft_sys.LfQueue.Fifo.{length-contents, contents-empty}
use hft_sys.Text.{Text}
use hft_sys.Logger.{LogLevel, Any, LogElement, write_to_file, log, batch}
use hft_sys.Logger.Thread.{
  Logger, LogEvent, called, turned, stopping, is_empty, LogPc, testing, filling, finished,
  turn_thread, take_log_event, run_logger,
}
use hft_sys.Logger.Journal.{
  Fits, line, Journal, note_line, note_turn, note, notes, journal, CallFits,
}
use hft_sys.Logger.Drained.{append_to_buffer_lem}

-- The logger stands for the journal `j`, and its queue is well-formed.
record Keeps (capacity : ℕ) (j : Journal) (r : Result Logger) : Type 0 where
  after : Logger
  runs : r ≡ ok after
  valid : IsValid after.queue
  same_capacity : after.queue.capacity ≡ capacity
  journal_lem : journal after ≡ j

log-Keeps :
    (level : LogLevel) (format : Text) (args : List Any) (l : Logger)
    → IsValid l.queue
    → Keeps l.queue.capacity
        (note l.queue.capacity (called level format args) (journal l))
        (take_log_event (called level format args) l)
unfolding take_log_event note log
log-Keeps level format args l val =
    let e : LogElement = record { level = level; format_string = format; args = args } in
    elim (dec_lt l.queue.num_elements l.queue.capacity) [
      | yes room ↦
          let (q, p) = push-room e l.queue val room in
          record {
            after = record l { queue = q };
            runs = ap (λ r. ok (record l { queue = r.1 })) p.run;
            valid = p.valid;
            same_capacity = p.same_capacity;
            journal_lem = rw (length-contents l.queue, lt→ltb _ _ room, p.contents_lem) refl;
          }
      | no full ↦ record {
        after = l;
        runs = ap (λ r. ok (record l { queue = r.1 })) (push-full e l.queue (omega arith));
        valid = val;
        same_capacity = refl;
        journal_lem =
            rw (length-contents l.queue, le→ltb l.queue.num_elements l.queue.capacity (omega arith))
              refl;
      }
    ]

turn_thread-Keeps :
    (pc : LogPc) (now : Text) (room : Option ℕ) (l : Logger)
    → IsValid l.queue
    → All Fits (contents l.queue)
    → Keeps l.queue.capacity (note_turn pc now room (journal l)) (turn_thread pc now room l)
unfolding turn_thread note_turn note_line size
turn_thread-Keeps testing now room l val fit = record {
  after = record l { thread = if l.running then filling 0 [] else finished };
  runs = refl;
  valid = val;
  same_capacity = refl;
  journal_lem = refl;
}
turn_thread-Keeps finished now room l val fit = record {
  after = l;
  runs = refl;
  valid = val;
  same_capacity = refl;
  journal_lem = refl;
}
turn_thread-Keeps (filling i buffer) now room l val fit =
    let wrote : Logger = record l {
      file = if is_empty buffer then l.file else write_to_file room buffer l.file;
      thread = testing;
    } in
    elim (dec_lt i batch) [
      | no full ↦ record {
        after = wrote;
        runs = rw (le→ltb i batch (omega arith)) refl;
        valid = val;
        same_capacity = refl;
        journal_lem = rw (le→ltb i batch (omega arith)) refl;
      }
      | yes more ↦ elim (dec_lt 0 l.queue.num_elements) [
        | no empty ↦
            let e = contents-empty l.queue (omega arith) in
            record {
              after = wrote;
              runs = rw (lt→ltb i batch more, le→ltb 0 l.queue.num_elements (omega arith)) refl;
              valid = val;
              same_capacity = refl;
              journal_lem = rw (lt→ltb i batch more, e) refl;
            }
        | yes some_in ↦
            let (q, p) = pop-some l.queue val some_in in
            let fits = subst (All Fits) p.contents_lem fit in
            record {
              after = record l { queue = q; thread = filling (suc i) (buffer ++ line now p.head) };
              runs =
                  rw
                    (
                      lt→ltb i batch more,
                      lt→ltb 0 l.queue.num_elements some_in,
                      p.run,
                      append_to_buffer_lem now p.head buffer fits.0,
                    )
                    refl;
              valid = p.valid;
              same_capacity = p.same_capacity;
              journal_lem = rw (lt→ltb i batch more, p.contents_lem) refl;
            }
      ]
    ]

All-append : (xs ys : List LogElement) → All Fits xs → All Fits ys → All Fits (xs ++ ys)
All-append [] ys h k = k
All-append (x ∷ xs) ys h k = (h.0, All-append xs ys h.1 k)

All-if :
    (t : Bool) (xs ys : List LogElement)
    → All Fits xs
    → All Fits ys
    → All Fits (if t then xs else ys)
All-if true xs ys h k = h
All-if false xs ys h k = k

note_line-Fits :
    (i : ℕ) (buffer now : Text) (room : Option ℕ) (es : List LogElement) (j : Journal)
    → All Fits es
    → All Fits j.waiting
    → All Fits (note_line i buffer now room es j).waiting
unfolding note_line
note_line-Fits i buffer now room [] j h fit = fit
note_line-Fits i buffer now room (e ∷ es) j h fit = h.1

note_turn-Fits :
    (pc : LogPc) (now : Text) (room : Option ℕ) (j : Journal)
    → All Fits j.waiting
    → All Fits (note_turn pc now room j).waiting
unfolding note_turn
note_turn-Fits testing now room j fit = fit
note_turn-Fits (filling i buffer) now room j fit =
    note_line-Fits i buffer now room _ j (All-if (ltb i batch) j.waiting [] fit tt) fit
note_turn-Fits finished now room j fit = fit

-- What waits behind an event fits, where the event and what waited do.
note-Fits :
    (capacity : ℕ) (e : LogEvent) (j : Journal)
    → CallFits e
    → All Fits j.waiting
    → All Fits (note capacity e j).waiting
unfolding note
note-Fits capacity (called level format args) j h fit =
    All-if (ltb (length j.waiting) capacity) _ _ (All-append j.waiting _ fit (h, tt)) fit
note-Fits capacity (turned now room) j h fit = note_turn-Fits j.thread now room j fit
note-Fits capacity stopping j h fit = fit

take_log_event-Keeps :
    (e : LogEvent) (l : Logger)
    → IsValid l.queue
    → All Fits (contents l.queue)
    → CallFits e
    → Keeps l.queue.capacity (note l.queue.capacity e (journal l)) (take_log_event e l)
unfolding take_log_event note
take_log_event-Keeps (called level format args) l val fit h = log-Keeps level format args l val
take_log_event-Keeps (turned now room) l val fit h = turn_thread-Keeps l.thread now room l val fit
take_log_event-Keeps stopping l val fit h = record {
  after = record l { running = false };
  runs = refl;
  valid = val;
  same_capacity = refl;
  journal_lem = refl;
}

-- Whatever log calls, steps of the logger's thread and stops follow each other, also a stop in the middle of a
-- round, the logger runs without a fault and does what the journal does: a call waits behind those before it, or is
-- dropped if `capacity` calls wait; in a round that it begins while the logger runs, the thread takes the lines
-- of up to 100 calls, oldest first, calls that come meanwhile included, and writes them in one piece. The text of
-- a call has to fit in a `size_t`.
pub run_logger-notes :
    (events : List LogEvent) (l : Logger)
    → IsValid l.queue
    → All Fits (contents l.queue)
    → All CallFits events
    → (l' : Logger) × (run_logger events l ≡ ok l')
      × IsValid l'.queue
      × (journal l' ≡ notes l.queue.capacity events (journal l))
unfolding run_logger notes
run_logger-notes [] l val fit h = (l, refl, val, refl)
run_logger-notes (e ∷ events) l val fit h =
    let k = take_log_event-Keeps e l val fit h.0 in
    let (l', runs, valid, same) =
      run_logger-notes events k.after k.valid
        (subst (λ j. All Fits j.waiting) (sym k.journal_lem)
          (note-Fits l.queue.capacity e (journal l) h.0 fit))
        h.1 in
    (
      l',
      rw (k.runs) runs,
      valid,
      same ∙ ap₂ (λ n j. notes n events j) k.same_capacity k.journal_lem,
    )
