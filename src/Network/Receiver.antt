-- ===== src/Network/Receiver.antt =====
-- network/src/receiver.rs: the task that serves one incoming connection. The handler of the messages is
-- a parameter, which tells whether it succeeded; a frame that could not be read is `none`.
use tusk_ubuntu.Prelude.{◌≡◌, refl, Bool, true, Option, none, some, List, [], ◌∷◌, if◌then◌else◌}
use tusk_ubuntu.Network.Connection.{Bytes}

module _ {S : Type 0} (dispatch : Bytes → S → S × Bool) where
  -- The messages are handled until one fails, or cannot be read.
  unfoldable pub serve : List (Option Bytes) → S → S
  serve [] s = s
  serve (none ∷ frames) s = s
  serve (some message ∷ frames) s =
      let (s', handled) = dispatch message s in
      let rest = serve frames s' in if handled then rest else s'

  pub serve-handled :
      (message : Bytes) (frames : List (Option Bytes)) (s : S) {t : S}
      → dispatch message s ≡ (t, true)
      → serve (some message ∷ frames) s ≡ serve frames t
  unfolding serve
  serve-handled message frames s e = rw e refl
