-- ===== src/Attach/Stream.antt =====
-- The server does what the client calls.
use aiman.Base.{
  ℕ, zero, suc, ◌+◌, ◌/◌, ◌%◌, ◌≤◌, ◌<◌, ◌≡◌, refl, ap, ◌∙◌, true, false, ◌&&◌, ◌||◌, List, [], ◌∷◌,
  ◌++◌, none, some, ◌==◌, ltb, leb, if◌then◌else◌, if-elim, length, arith, Option-cases, inl, inr,
}
use mathlib.Core.Path.{subst}
use aiman.Base.Int.{ℤ, pos, negsuc}
use aiman.Base.Text.{Bytes}
use aiman.Attach.{
  attach_frame_input, attach_frame_resize, attach_max_frame, put_uint32, uint32, put_uint16, uint16,
  read_full, Frame, frame, read_body, read_attach_frame, write_attach_frame, Effect, wrote, resized,
  input_effect, resize_effect, apply_frame, handle_input, Call, write_input, resize, in_window,
  magnitude, send, send_all,
}

-- What a call is to do at the session; a call that is refused does nothing.
unfoldable pub effect_of : Call → List Effect
effect_of (write_input []) = []
effect_of (write_input (c ∷ p)) =
    if leb (suc (length (c ∷ p))) 65536 then wrote (c ∷ p) ∷ [] else []
effect_of (resize cols rows) =
    if in_window cols && in_window rows then resized (magnitude cols) (magnitude rows) ∷ [] else []

unfoldable pub effects_of : List Call → List Effect
unfolding effect_of
effects_of [] = []
effects_of (c ∷ calls) = effect_of c ++ effects_of calls

read_full-append : (body rest : Bytes) → read_full (length body) (body ++ rest) ≡ some (body, rest)
unfolding read_full
read_full-append [] rest = refl
read_full-append (c ∷ body) rest = rw (read_full-append body rest) refl

uint32-put :
    (n : ℕ)
    → n ≤ 65536
    → uint32 (n / 16777216 % 256) (n / 65536 % 256) (n / 256 % 256) (n % 256) ≡ n
uint32-put n le = omega (arith, le)

uint16-put : (n : ℕ) → n ≤ 65535 → uint16 (n / 256 % 256) (n % 256) ≡ n
uint16-put n le = omega (arith, le)

read_body-append :
    (kind : ℕ) (payload rest : Bytes) (n : ℕ)
    → n ≡ suc (length payload)
    → n ≤ 65536
    → read_body n (kind ∷ payload ++ rest) ≡ frame kind payload rest
read_body-append kind payload rest n e le =
    let full : read_full n (kind ∷ payload ++ rest) ≡ some (kind ∷ payload, rest) =
      rw e (read_full-append (kind ∷ payload) rest) in
    if-elim (λ (f : Frame). f ≡ frame kind payload rest) (n == 0 || ltb attach_max_frame n)
      (λ bad. ground (arith, e, le)) (λ _. rw full refl)

write_attach_frame-some :
    (kind : ℕ) (payload bytes : Bytes)
    → write_attach_frame kind payload ≡ some bytes
    → (length payload + 1 ≤ 65536) × (put_uint32 (length payload + 1) ++ (kind ∷ payload) ≡ bytes)
unfolding write_attach_frame
write_attach_frame-some kind payload bytes e = ground arith

-- A frame that is written is read back, with what follows it.
read_attach_frame-write :
    (kind : ℕ) (payload bytes rest : Bytes)
    → write_attach_frame kind payload ≡ some bytes
    → read_attach_frame (bytes ++ rest) ≡ frame kind payload rest
unfolding read_attach_frame
read_attach_frame-write kind payload bytes rest e =
    let w = write_attach_frame-some kind payload bytes e in
    let n = length payload + 1 in
    subst (λ (b : Bytes). read_attach_frame (b ++ rest) ≡ frame kind payload rest) w.1
      (ap (λ (k : ℕ). read_body k (kind ∷ payload ++ rest)) (uint32-put n w.0)
        ∙ read_body-append kind payload rest n (omega arith) w.0)

input_effect-sent :
    (p bytes : Bytes)
    → write_attach_frame attach_frame_input p ≡ some bytes
    → input_effect p ≡ effect_of (write_input p)
unfolding input_effect effect_of write_attach_frame
input_effect-sent [] bytes e = refl
input_effect-sent (c ∷ p) bytes e = ground arith

in_window-le : (x : ℤ) → in_window x ≡ true → magnitude x ≤ 65535
in_window-le (pos n) e = ground arith
in_window-le (negsuc n) e = omega arith

-- The effect of a call that is sent is that of its frame; a call that is not sent has none.
send-frame :
    (c : Call) (bytes rest : Bytes)
    → send c ≡ some bytes
    → (kind : ℕ) × (payload : Bytes) × (read_attach_frame (bytes ++ rest) ≡ frame kind payload rest)
      × (apply_frame kind payload ≡ effect_of c)
unfolding send effect_of apply_frame resize_effect
send-frame (write_input p) bytes rest e = (
  attach_frame_input,
  p,
  read_attach_frame-write attach_frame_input p bytes rest e,
  input_effect-sent p bytes e,
)
send-frame (resize cols rows) bytes rest e =
    let c = put_uint16 (magnitude cols) in
    let r = put_uint16 (magnitude rows) in
    let allowed : in_window cols && in_window rows ≡ true = ground arith in
    let sent : write_attach_frame attach_frame_resize (c ++ r) ≡ some bytes = ground arith in
    let cols_le : magnitude cols ≤ 65535 = in_window-le cols (ground arith) in
    let rows_le : magnitude rows ≤ 65535 = in_window-le rows (ground arith) in
    (
      attach_frame_resize,
      c ++ r,
      read_attach_frame-write attach_frame_resize (c ++ r) bytes rest sent,
      rw (allowed, uint16-put (magnitude cols) cols_le, uint16-put (magnitude rows) rows_le) refl,
    )

send-none : (c : Call) → send c ≡ none → effect_of c ≡ []
unfolding send effect_of write_attach_frame
send-none (write_input []) e = refl
send-none (write_input (c ∷ p)) e = ground arith
send-none (resize cols rows) e = ground arith

-- While the context does not end, and with a round for each call and one more, the server comes to the
-- end of the stream of a client, and what it did to the session is what the calls say, in their order:
-- the bytes that were written, but for empty writes, and the window sizes. A call that was refused, for
-- its size, does nothing.
pub handle_input-send_all :
    (calls : List Call) (round fuel : ℕ)
    → length calls < fuel
    → handle_input (λ _. false) round fuel (send_all calls) ≡ some (effects_of calls)
unfolding handle_input send_all effects_of read_attach_frame
handle_input-send_all [] round zero lt = ground (arith, lt)
handle_input-send_all [] round (suc fuel) lt = refl
handle_input-send_all (c ∷ calls) round zero lt = ground (arith, lt)
handle_input-send_all (c ∷ calls) round (suc fuel) lt = elim (Option-cases (send c)) [
  | inl e ↦ rw (e, send-none c e) (handle_input-send_all calls round (suc fuel) (omega (arith, lt)))
  | inr (bytes, e) ↦
      let f = send-frame c bytes (send_all calls) e in
      rw (e, f.2, handle_input-send_all calls (round + 1) fuel (omega (arith, lt)), f.3) refl
]
