-- ===== src/Attach/Tests.antt =====
-- A client that types, sets a size, sets a size that is not allowed, and types again.
use aiman.Base.{◌≡◌, refl, false, List, [], ◌∷◌, some, arith}
use aiman.Base.Int.{pos, negsuc}
use aiman.Base.Text.{codes}
use aiman.Attach.{
  Call, write_input, resize, send_all, send, handle_input, wrote, resized, read_attach_frame,
  read_full, write_attach_frame, apply_frame, input_effect, resize_effect,
}
use aiman.Attach.Stream.{effects_of, handle_input-send_all}

abbrev calls : List Call
calls =
    write_input (codes "ls\r")
    ∷ resize (pos 200) (pos 50)
    ∷ resize (negsuc 0) (pos 50)
    ∷ write_input []
    ∷ write_input (codes "q")
    ∷ []

calls_lem :
    handle_input (λ _. false) 0 6 (send_all calls)
    ≡ some (wrote (codes "ls\r") ∷ resized 200 50 ∷ wrote (codes "q") ∷ [])
unfolding handle_input send_all send read_attach_frame read_full write_attach_frame apply_frame
    input_effect resize_effect
calls_lem = refl

handle_input-send_all_example :
    handle_input (λ _. false) 0 6 (send_all calls) ≡ some (effects_of calls)
handle_input-send_all_example = handle_input-send_all calls 0 6 (omega arith)
