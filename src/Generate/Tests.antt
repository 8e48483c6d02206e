-- ===== src/Generate/Tests.antt =====
-- Runs of a generation, in one answer and streamed, and the theorems at them.
use mehoy_malloy_ai_runtime.Common.{
  ◌≡◌, refl, ◌⊎◌, Bool, true, false, ◌&&◌, Option, none, some, List, [], ◌∷◌, ◌++◌, arith, ltb,
  if◌then◌else◌, Result, ok, take, drop, All,
}
use mehoy_malloy_ai_runtime.Common.Text.{Text, text_eq, joined}
use mehoy_malloy_ai_runtime.Common.Spaces.{trim}
use mehoy_malloy_ai_runtime.Cancel.{user, new_handle, is_terminal, requests}
use mehoy_malloy_ai_runtime.Cancel.{run}
use mehoy_malloy_ai_runtime.Inference.Generation.{continuation, FinishReason, GenerateTextRequest}
use mehoy_malloy_ai_runtime.Inference.Stream.{
  sends, ends_complete, quoted, GenerationSink, text_delta, completes, cancels, collect, Ending,
}
use mehoy_malloy_ai_runtime.Inference.Stream.Delivery.{outcome_of}
use mehoy_malloy_ai_runtime.Sse.{new_decoder}
use mehoy_malloy_ai_runtime.Sse.Pushes.{pushes}
use mehoy_malloy_ai_runtime.Generate.{
  finish_reason_for, wire_request, WireRequest, WireResponse, WireErrorBody, not_supported,
  classify, unauthorised, not_supported_kind, stop_word,
}
use mehoy_malloy_ai_runtime.Generate.Streaming.{Step, ended, Round, Reading, body_loop}
use mehoy_malloy_ai_runtime.Generate.Execution.{
  Course, prepare, body_of, execute, read, start_generation,
}
use mehoy_malloy_ai_runtime.Generate.Sameness.{deltas}
use mehoy_malloy_ai_runtime.Generate.Outcome.{EndsFor, start_generation_told}
use mehoy_malloy_ai_runtime.Generate.Rounds.{read_cancelled}
use mehoy_malloy_ai_runtime.Sse.RoundTrip.{events_bytes, IsPayload}
use mehoy_malloy_ai_runtime.Generate.Whole.{payloads_of, IsPiece, IsLast, read-whole}
use mehoy_malloy_ai_runtime.Generate.Cuts.{quiet, read_cuts}

abbrev is_ascii : Text → Bool
is_ascii [] = true
is_ascii (b ∷ bs) = ltb b 128 && is_ascii bs

-- A payload is taken for the text of a choice that ends the generation.
abbrev echo : Text → Result WireResponse Text
echo payload = ok (record {
  choices = record { text = payload; finish_reason = some stop_word } ∷ [];
  usage = none;
})

abbrev no_error : Text → Option WireErrorBody
no_error bytes = none

abbrev same : Text → Text
same bytes = bytes

abbrev no_words : WireRequest → Result Text Text
no_words r = ok []

abbrev data_hi : Text
data_hi = b'd' ∷ b'a' ∷ b't' ∷ b'a' ∷ b':' ∷ b' ' ∷ b'h' ∷ b'i' ∷ []

abbrev end_event : Text
end_event = 10 ∷ 10 ∷ []

abbrev hi : Text
hi = b'h' ∷ b'i' ∷ []

abbrev fresh : GenerationSink
fresh = record { handle = new_handle 7; finished = false }

abbrev at_once : Step (Result (Unit {0}) Text)
at_once = record { others = []; closed = false; outcome = some (ok tt) }

abbrev last_round : Round
last_round = record {
  step = record { others = []; closed = false; outcome = some ended };
  room = 3;
}

abbrev smooth : Course
smooth = record {
  connects = at_once;
  shakes_hands = at_once;
  builds = ok tt;
  responds = record { others = []; closed = false; outcome = some (ok 200) };
  collects = record { others = []; closed = false; outcome = none };
  rounds = quiet 3 (data_hi ++ end_event) ∷ last_round ∷ [];
  late = [];
}

abbrev asked : GenerateTextRequest
asked = record {
  input = continuation hi;
  parameters = record { max_output_tokens = none; temperature = none; seed = none; stop = [] };
}

smooth_sent :
    (execute echo is_ascii no_error same (ok []) smooth fresh).0
    ≡ ok (text_delta 7 hi)
      ∷ ok (completes 7 (record { finish_reason = FinishReason.stop; usage = none }))
      ∷ []
unfolding execute new_handle
smooth_sent = refl

-- White space around the marker does not hide it.
marker_trimmed :
    trim (b' ' ∷ 0xc2 ∷ 0xa0 ∷ b'[' ∷ b'D' ∷ b']' ∷ 10 ∷ 0xe2 ∷ 0x80 ∷ 0x83 ∷ [])
    ≡ b'[' ∷ b'D' ∷ b']' ∷ []
unfolding trim
marker_trimmed = refl

-- An answer of a server that does not generate, and one of a server that refuses the credential.
not_supported_answer :
    classify (λ bytes. some (record { message = hi; kind = not_supported_kind })) same 400 []
    ≡ not_supported (quoted hi ∷ [])
unfolding classify
not_supported_answer = refl

refused_answer : classify no_error same 403 hi ≡ unauthorised 403
unfolding classify
refused_answer = refl

start_generation_told_example :
    let (stream, item, (items, left)) =
      start_generation echo is_ascii no_error same no_words asked (new_handle 7) smooth in
    ((ts : List Text) × (e : Ending) × (sink : GenerationSink) × EndsFor echo is_ascii no_error same
        smooth
        (prepare
          (body_of (no_words (wire_request true asked)))
          smooth
          (record { handle = new_handle 7; finished = false }))
        e
      × (items ≡ sends ts e (record { handle = new_handle 7; finished = false }))
      × ((collect (item ∷ items) [] stream).1 ≡ outcome_of e (joined ts))
      × (left ≡ some sink)
      × (is_terminal sink.handle.state ≡ true))
    ⊎ ((ts : List Text) × (items ≡ deltas ts (record { handle = new_handle 7; finished = false }))
        × (left ≡ none))
start_generation_told_example =
    start_generation_told echo is_ascii no_error same no_words asked (new_handle 7) smooth

-- A round at whose wait the request has been cancelled.
abbrev cancelled_round : Round
cancelled_round = record {
  step = record { others = requests user ∷ []; closed = false; outcome = some ended };
  room = 3;
}

abbrev halfway : Reading
halfway = record {
  decoder = record { buffer = data_hi; data_text = []; has_data = false };
  terminal = none;
  sink = fresh;
}

halfway_read :
    body_loop echo is_ascii
      (quiet 3 data_hi ∷ [])
      (record { decoder = new_decoder; terminal = none; sink = fresh })
    ≡ ([], halfway, none)
unfolding body_loop new_handle
halfway_read = refl

cancelled_signal : (run cancelled_round.step.others halfway.sink.handle).token.signal ≡ some user
unfolding run new_handle
cancelled_signal = refl

read_cancelled_example :
    (read echo is_ascii no_error same
      (quiet 3 data_hi ∷ cancelled_round ∷ last_round ∷ [])
      []
      fresh).0
    ≡ ok (cancels 7 user) ∷ []
unfolding new_handle
read_cancelled_example =
    read_cancelled echo is_ascii no_error same (quiet 3 data_hi ∷ []) (last_round ∷ [])
      cancelled_round [] fresh [] halfway user refl halfway_read cancelled_signal

-- The body at once, and in two frames.
abbrev one_event : List Text
one_event = hi ∷ []

whole_read : pushes is_ascii ((data_hi ++ end_event) ∷ []) new_decoder ≡ (new_decoder, ok one_event)
unfolding pushes
whole_read = refl

cut_read : pushes is_ascii (data_hi ∷ end_event ∷ []) new_decoder ≡ (new_decoder, ok one_event)
unfolding pushes
cut_read = refl

read_cuts_example :
    read echo is_ascii no_error same (quiet 3 (data_hi ++ end_event) ∷ last_round ∷ []) [] fresh
    ≡ read echo is_ascii no_error same
        (quiet 3 data_hi ∷ quiet 3 end_event ∷ last_round ∷ [])
        []
        fresh
unfolding new_handle
read_cuts_example =
    read_cuts echo is_ascii no_error same (data_hi ++ end_event) data_hi [] (end_event ∷ [])
      (last_round ∷ []) 3 [] fresh new_decoder new_decoder one_event one_event refl refl
      (omega arith) whole_read cut_read (omega arith) (omega arith)

-- A piece, the last text and the marker, cut inside the first event.
abbrev answers : Text → Result WireResponse Text
answers payload =
    if text_eq payload (b'h' ∷ [])
    then ok
        (record { choices = record { text = b'h' ∷ []; finish_reason = none } ∷ []; usage = none })
    else ok (record {
      choices = record { text = b'i' ∷ []; finish_reason = some stop_word } ∷ [];
      usage = none;
    })

abbrev pieces : List (Text × Text)
pieces = (b'h' ∷ [], b'h' ∷ []) ∷ []

abbrev three_events : List Text
three_events = payloads_of answers pieces (b'i' ∷ [])

abbrev first_bytes : Text
first_bytes = take 5 (events_bytes three_events)

abbrev later_bytes : Text
later_bytes = drop 5 (events_bytes three_events)

three_decoded :
    pushes is_ascii (first_bytes ∷ later_bytes ∷ []) new_decoder ≡ (new_decoder, ok three_events)
unfolding pushes
three_decoded = refl

pieces-IsPiece : All (IsPiece answers) pieces
unfolding trim text_eq
pieces-IsPiece = ((refl, refl), tt)

reply-IsLast : IsLast answers (b'i' ∷ []) (b'i' ∷ []) stop_word none
unfolding trim text_eq
reply-IsLast = (refl, refl)

three_events-IsPayload : All (IsPayload is_ascii) three_events
three_events-IsPayload = (
  ((refl, tt), refl),
  (((refl, tt), refl), (((refl, (refl, (refl, (refl, (refl, (refl, tt)))))), refl), tt)),
)

read-whole_example :
    (read answers is_ascii no_error same
      (quiet 3 first_bytes ∷ quiet 3 later_bytes ∷ last_round ∷ [])
      []
      fresh).0
    ≡ sends
        ((b'h' ∷ []) ∷ (b'i' ∷ []) ∷ [])
        (ends_complete
          (record { finish_reason = finish_reason_for (some stop_word); usage = none }))
        fresh
unfolding new_handle
read-whole_example =
    read-whole answers is_ascii no_error same pieces (b'i' ∷ []) (b'i' ∷ []) stop_word none
      first_bytes (later_bytes ∷ []) new_decoder three_events (last_round ∷ []) 3 [] fresh
      pieces-IsPiece reply-IsLast three_events-IsPayload refl (omega arith) three_decoded
      (omega arith) refl refl
