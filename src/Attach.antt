-- ===== src/Attach.antt =====
-- internal/server/attach_framing.go, and the client that writes the frames (internal/server/client.go):
-- what a terminal client types, and the sizes of its window, on one stream of bytes.
pub mod Stream
mod Tests
use aiman.Base.{
  ℕ, zero, suc, ◌+◌, ◌*◌, ◌/◌, ◌%◌, Bool, true, false, not, ◌&&◌, ◌||◌, List, [], ◌∷◌, ◌++◌, Option,
  none, some, ◌==◌, ltb, leb, if◌then◌else◌, length,
}
use aiman.Base.Int.{ℤ, pos, negsuc}
use aiman.Base.Text.{Bytes}

abbrev pub attach_frame_input : ℕ
attach_frame_input = 0x01

abbrev pub attach_frame_resize : ℕ
attach_frame_resize = 0x02

abbrev pub attach_max_frame : ℕ
attach_max_frame = 65536

-- `binary.BigEndian`
abbrev pub put_uint32 : ℕ → Bytes
put_uint32 n = n / 16777216 % 256 ∷ n / 65536 % 256 ∷ n / 256 % 256 ∷ n % 256 ∷ []

abbrev pub uint32 : ℕ → ℕ → ℕ → ℕ → ℕ
uint32 a b c d = a * 16777216 + b * 65536 + c * 256 + d

abbrev pub put_uint16 : ℕ → Bytes
put_uint16 n = n / 256 % 256 ∷ n % 256 ∷ []

abbrev pub uint16 : ℕ → ℕ → ℕ
uint16 a b = a * 256 + b

-- `io.ReadFull`: the bytes and the rest of the stream, or `none` at its end.
unfoldable pub read_full : ℕ → Bytes → Option (Bytes × Bytes)
read_full zero s = some ([], s)
read_full (suc n) [] = none
read_full (suc n) (c ∷ s) = elim (read_full n s) [
  | none ↦ none
  | some (body, rest) ↦ some (c ∷ body, rest)
]

-- A frame with what follows it, a length that is not allowed, or the end of the stream.
pub data Frame : Type 0 where
  frame : ℕ → Bytes → Bytes → Frame
  bad_length : ℕ → Frame
  end_of_stream : Frame

abbrev pub frame_of : Option (Bytes × Bytes) → Frame
frame_of none = end_of_stream
frame_of (some ([], rest)) = end_of_stream
frame_of (some (kind ∷ payload, rest)) = frame kind payload rest

abbrev pub read_body : ℕ → Bytes → Frame
read_body n s = if n == 0 || ltb attach_max_frame n then bad_length n else frame_of (read_full n s)

unfoldable pub read_attach_frame : Bytes → Frame
unfolding read_full
read_attach_frame (a ∷ b ∷ c ∷ d ∷ s) = read_body (uint32 a b c d) s
read_attach_frame _ = end_of_stream

-- The bytes that are written, or `none` for a frame that is too large.
unfoldable pub write_attach_frame : ℕ → Bytes → Option Bytes
write_attach_frame kind payload =
    if ltb attach_max_frame (length payload + 1)
    then none
    else some (put_uint32 (length payload + 1) ++ (kind ∷ payload))

-- What the server does with a frame: bytes for the session, or a new size for it.
pub data Effect : Type 0 where
  wrote : Bytes → Effect
  resized : ℕ → ℕ → Effect

unfoldable pub input_effect : Bytes → List Effect
input_effect [] = []
input_effect (c ∷ payload) = wrote (c ∷ payload) ∷ []

unfoldable pub resize_effect : Bytes → List Effect
resize_effect (a ∷ b ∷ c ∷ d ∷ more) = resized (uint16 a b) (uint16 c d) ∷ []
resize_effect _ = []

unfoldable pub apply_frame : ℕ → Bytes → List Effect
unfolding input_effect resize_effect
apply_frame kind payload =
    if kind == attach_frame_input
    then input_effect payload
    else if kind == attach_frame_resize
    then resize_effect payload
    else []

-- `handlePTYAttachConnInput` on fuel; `done` says at each round whether the context has ended. `none` is
-- a loop that has not come to an end.
unfoldable pub handle_input : (ℕ → Bool) → ℕ → ℕ → Bytes → Option (List Effect)
unfolding read_attach_frame apply_frame
handle_input done round zero s = none
handle_input done round (suc fuel) s =
    let next = λ (rest : Bytes). handle_input done (round + 1) fuel rest in
    if done round then some [] else elim (read_attach_frame s) [
      | frame kind payload rest ↦ elim (next rest) [
        | none ↦ none
        | some effects ↦ some (apply_frame kind payload ++ effects)
      ]
      | bad_length n ↦ some []
      | end_of_stream ↦ some []
    ]

-- The calls of a client, and the bytes that each of them sends; `none` is an error, with nothing sent.
pub data Call : Type 0 where
  write_input : Bytes → Call
  resize : ℤ → ℤ → Call

abbrev pub in_window : ℤ → Bool
in_window (pos n) = not (n == 0) && leb n 65535
in_window (negsuc n) = false

abbrev pub magnitude : ℤ → ℕ
magnitude (pos n) = n
magnitude (negsuc n) = 0

unfoldable pub send : Call → Option Bytes
unfolding write_attach_frame
send (write_input p) = write_attach_frame attach_frame_input p
send (resize cols rows) =
    if not (in_window cols && in_window rows)
    then none
    else write_attach_frame attach_frame_resize
        (put_uint16 (magnitude cols) ++ put_uint16 (magnitude rows))

-- The stream of a client that goes on after an error.
unfoldable pub send_all : List Call → Bytes
unfolding send
send_all [] = []
send_all (c ∷ calls) = elim (send c) [
  | none ↦ send_all calls
  | some bytes ↦ bytes ++ send_all calls
]
