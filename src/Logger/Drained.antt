-- ===== src/Logger/Drained.antt =====
-- The line that the logger's thread adds to its buffer.
use hft_sys.Common.{◌≡◌, ap, ◌∙◌, ◌++◌, append_assoc, ok}
use hft_sys.Text.{Text, codes}
use hft_sys.Logger.{LogElement, level_name, append_to_buffer}
use hft_sys.Logger.Format.{substitute, format_message-substitute}
use hft_sys.Logger.Journal.{Fits, line}

four_parts : (a b c d : Text) → a ++ b ++ c ++ d ≡ a ++ (b ++ c ++ d)
four_parts a b c d = ap (λ t. t ++ d) (append_assoc a b c) ∙ append_assoc a (b ++ c) d

pub append_to_buffer_lem :
    (now : Text) (e : LogElement) (buffer : Text)
    → Fits e
    → append_to_buffer now e buffer ≡ ok (buffer ++ line now e)
unfolding append_to_buffer
append_to_buffer_lem now e buffer h = rw (format_message-substitute e.format_string e.args h) (
    ap ok (
      four_parts buffer (codes "[" ++ now ++ codes "] [" ++ level_name e.level ++ codes "] ")
        (substitute e.format_string e.args) (codes "\n")))
