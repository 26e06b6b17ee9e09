-- ===== src/Sse/Frames/Read.antt =====
-- The stream of a connection as a client reads it.
use mathlib.Core.List.{append_assoc}
use rogue_learn_code_battle.Base.{
  ◌≡◌, refl, ap, ◌∙◌, inl, inr, false, Option, none, some, Option-cases, List, [], ◌∷◌, ◌++◌, Text,
  codes, is_empty, strip_prefix?, if◌then◌else◌, any, ◌==◌, arith,
}
use rogue_learn_code_battle.Auth.{split}
use rogue_learn_code_battle.Events.{EventType}
use rogue_learn_code_battle.Sse.Frames.{
  newline, event_type_text, event_line, data_lines, room_frame, spectator_frame, write_events,
}

-- The format of an event stream, on the fields that the handlers write. `event` is the type that was
-- read, `text` the data; a blank line ends an event, which is dropped when it has no data.
unfoldable read_lines : Text → Option Text → List Text → List (Text × Text)
read_lines event text [] = []
read_lines event text ([] ∷ lines) = elim text [
  | none ↦ read_lines [] none lines
  | some t ↦ (if is_empty event then codes "message" else event, t) ∷ read_lines [] none lines
]
read_lines event text ((b ∷ bs) ∷ lines) = elim (strip_prefix? (codes "event: ") (b ∷ bs)) [
  | some value ↦ read_lines value text lines
  | none ↦ elim (strip_prefix? (codes "data: ") (b ∷ bs)) [
    | some value ↦
        read_lines event (some (elim text [ none ↦ value | some t ↦ t ++ newline ∷ value ])) lines
    | none ↦ read_lines event text lines
  ]
]

unfoldable pub read_stream : Text → List (Text × Text)
unfolding read_lines
read_stream s = read_lines [] none (split newline s)

-- No byte of the text ends a line.
abbrev pub IsLine : Text → Type 0
IsLine s = any (λ b. b == newline) s ≡ false

split-line : (l s : Text) → IsLine l → split newline (l ++ newline ∷ s) ≡ l ∷ split newline s
unfolding split
split-line [] s h = refl
split-line (b ∷ l) s h = ground (arith, split-line l s)

split-event_line :
    (name rest : Text)
    → IsLine name
    → split newline (event_line name ++ rest) ≡ (codes "event: " ++ name) ∷ split newline rest
split-event_line name rest n =
    ap (λ s. split newline (codes "event: " ++ s)) (append_assoc name (newline ∷ []) rest)
    ∙ split-line (codes "event: " ++ name) rest n

split-data_lines :
    (text rest : Text)
    → IsLine text
    → split newline (data_lines text ++ rest) ≡ (codes "data: " ++ text) ∷ [] ∷ split newline rest
split-data_lines text rest t =
    ap (λ s. split newline (codes "data: " ++ s)) (append_assoc text (newline ∷ newline ∷ []) rest)
    ∙ (split-line (codes "data: " ++ text) (newline ∷ rest) t
        ∙ ap (λ l. (codes "data: " ++ text) ∷ l) (split-line [] rest refl))

read-event :
    (name text rest : Text)
    → IsLine name
    → IsLine text
    → is_empty name ≡ false
    → read_stream (event_line name ++ (data_lines text ++ rest)) ≡ (name, text) ∷ read_stream rest
unfolding read_stream read_lines strip_prefix?
read-event name text rest n t some_name =
    let cut : split newline (event_line name ++ (data_lines text ++ rest))
        ≡ (codes "event: " ++ name) ∷ (codes "data: " ++ text) ∷ [] ∷ split newline rest =
      split-event_line name (data_lines text ++ rest) n
      ∙ ap (λ l. (codes "event: " ++ name) ∷ l) (split-data_lines text rest t) in
    ap (read_lines [] none) cut
    ∙ ap (λ b. (if b then codes "message" else name, text) ∷ read_stream rest) some_name

-- The name of each type is a line that is not empty.
event_type_text-IsLine : (e : EventType) → IsLine (event_type_text e)
unfolding event_type_text
event_type_text-IsLine e = ground arith

is_empty-event_type_text : (e : EventType) → is_empty (event_type_text e) ≡ false
unfolding event_type_text
is_empty-event_type_text e = ground arith

module _ {A : Type 0} (event_type : A → EventType) (marshal : A → Option Text) where
  -- The events up to the first that cannot be marshalled.
  unfoldable pub marshalled : List A → List (Text × Text)
  marshalled [] = []
  marshalled (event ∷ events) = elim (marshal event) [
    | none ↦ []
    | some text ↦ (event_type_text (event_type event), text) ∷ marshalled events
  ]

  read_stream-frames :
      (frame : EventType → Text → Text) (events : List A)
      → ((e : EventType) (text : Text)
          → frame e text ≡ event_line (event_type_text e) ++ data_lines text)
      → ((event : A) (text : Text) → marshal event ≡ some text → IsLine text)
      → read_stream (write_events event_type marshal frame events) ≡ marshalled events
  unfolding write_events marshalled read_stream split
  read_stream-frames frame [] same lines = refl
  read_stream-frames frame (event ∷ events) same lines = elim (Option-cases (marshal event)) [
    | inl stuck ↦ rw (stuck, write_events, marshalled) refl
    | inr (text, e) ↦
        let name = event_type_text (event_type event) in
        let rest = write_events event_type marshal frame events in
        rw (e, write_events, marshalled)
          (ap (λ s. read_stream (s ++ rest)) (same (event_type event) text)
            ∙ (ap read_stream (append_assoc (event_line name) (data_lines text) rest)
                ∙ (read-event name text rest (event_type_text-IsLine (event_type event))
                      (lines event text e) (is_empty-event_type_text (event_type event))
                    ∙ ap (λ l. (name, text) ∷ l) (read_stream-frames frame events same lines))))
  ]

  -- Where what json.Marshal writes has no line break, a client reads back from the connection of a
  -- room, and from that of a spectator, the type and the data of each event that was sent, in order,
  -- up to the first that cannot be marshalled.
  pub read_stream-write_events :
      (events : List A)
      → ((event : A) (text : Text) → marshal event ≡ some text → IsLine text)
      → (read_stream (write_events event_type marshal room_frame events) ≡ marshalled events)
        × (read_stream (write_events event_type marshal spectator_frame events) ≡ marshalled events)
  unfolding room_frame spectator_frame
  read_stream-write_events events lines = (
    read_stream-frames room_frame events
        (λ e text. rw (is_empty-event_type_text e, room_frame) refl) lines,
    read_stream-frames spectator_frame events (λ e text. refl) lines,
  )
