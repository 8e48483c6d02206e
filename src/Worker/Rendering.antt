-- ===== src/Worker/Rendering.antt =====
-- log.rs: how the record of a worker's output is shown; and process.rs, the tasks that fill it.
use mehoy_malloy_ai_runtime.Common.{ℕ, List, [], ◌∷◌, ◌++◌, ltb, if◌then◌else◌}
use mehoy_malloy_ai_runtime.Common.Text.{Text}
use mehoy_malloy_ai_runtime.Registry.{shown}
use mehoy_malloy_ai_runtime.Worker.{
  LogStream, stdout, stderr, LogLine, WorkerLog, record_line, dropped,
}

abbrev pub stream_text : LogStream → Text
stream_text stdout = b's' ∷ b't' ∷ b'd' ∷ b'o' ∷ b'u' ∷ b't' ∷ []
stream_text stderr = b's' ∷ b't' ∷ b'd' ∷ b'e' ∷ b'r' ∷ b'r' ∷ []

-- `[stream] text`.
abbrev pub line_text : LogLine → Text
line_text l = b'[' ∷ stream_text l.stream ++ (b']' ∷ b' ' ∷ l.text)

abbrev pub lines_text : List LogLine → Text
lines_text [] = []
lines_text (l ∷ ls) = line_text l ++ (b'\n' ∷ lines_text ls)

-- `... {n} earlier line(s) dropped ...` and a line feed.
abbrev pub dropped_text : ℕ → Text
dropped_text n =
    b'.' ∷ b'.' ∷ b'.' ∷ b' ' ∷ shown n
    ++ (b' ' ∷ b'e' ∷ b'a' ∷ b'r' ∷ b'l' ∷ b'i' ∷ b'e' ∷ b'r' ∷ b' ' ∷ b'l' ∷ b'i' ∷ b'n' ∷ b'e'
        ∷ b'(' ∷ b's' ∷ b')' ∷ b' ' ∷ b'd' ∷ b'r' ∷ b'o' ∷ b'p' ∷ b'p' ∷ b'e' ∷ b'd' ∷ b' ' ∷ b'.'
        ∷ b'.' ∷ b'.' ∷ b'\n' ∷ [])

unfoldable pub render : WorkerLog → Text
unfolding dropped
render l =
    let rest = lines_text l.lines in
    if ltb 0 (dropped l) then dropped_text (dropped l) ++ rest else rest

-- `drain`, given the texts that a stream yields until it ends and when each came: the log, and what
-- is sent to the live feed.
unfoldable pub drain : LogStream → List (ℕ × Text) → WorkerLog → WorkerLog × List LogLine
unfolding record_line
drain stream [] log = (log, [])
drain stream ((at, text) ∷ more) log =
    let line : LogLine = record { stream = stream; at = at; text = text } in
    let (log', sent) = drain stream more (record_line line log) in (log', line ∷ sent)
