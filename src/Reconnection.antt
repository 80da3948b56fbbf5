-- ===== src/Reconnection.antt =====
-- server.go and client.go together: the batch that handleResume enqueues, received by the client that asked.
pub mod Acceptance
pub mod Resuming
use kmtproto.Prelude.{ℕ, List, [], ◌∷◌, ◌++◌}
use kmtproto.Wire.{Envelope, Json}
use kmtproto.Client.{Client, Action, actions_of, handle_welcome}
use kmtproto.Client.Completion.{receive_all}

-- The WELCOME and the events behind it, one after the other, with all actions.
unfoldable pub receive_batch : Json → Client → List Envelope → ℕ → Client × List Action
unfolding handle_welcome receive_all
receive_batch json c [] now = (c, [])
receive_batch json c (first ∷ events) now =
    let (next, result) = handle_welcome json c first in
    let (last, more) = receive_all json next events now in (last, actions_of result ++ more)
