-- ===== src/Net/Tests.antt =====
-- Runs of the event loop and of the server.
use rtmp_abr_transcoder.Base.{ℕ, ◌≡◌, refl, true, List, [], ◌∷◌, ◌++◌, Option, none, some, ok, err}
use rtmp_abr_transcoder.Session.{Session}
use rtmp_abr_transcoder.Net.Socket.{
  Socket, returned, would_block, failed, set_nonblocking, accept, close, set_option, bind, listen,
  bind_failed,
}
use rtmp_abr_transcoder.Net.EventLoop.{
  EventLoop, ready, find_callback, erase, remove, add, dispatch, run_once,
}
use rtmp_abr_transcoder.Net.Server.{
  AcceptCalls, ServerCalls, of_socket, listen_steps, start_listening, serve_socket, handle_accept,
}

-- A callback is the descriptor that it removes.
abbrev removing : ℕ → ℕ → EventLoop ℕ × List ℕ → EventLoop ℕ × List ℕ
removing fd ev (loop, seen) = ((remove true fd loop).1, seen ++ (ev ∷ []))

abbrev watching : EventLoop ℕ
watching = record { running = true; callbacks = (4, 6) ∷ (5, 5) ∷ (6, 4) ∷ [] }

-- The callback that was removed by an earlier event of the same wait is not called.
removed_callback_runs :
    run_once removing (ready ((4, 1) ∷ (6, 2) ∷ (5, 3) ∷ [])) (watching, [])
    ≡ (ok tt, (record { running = true; callbacks = (4, 6) ∷ [] }, 1 ∷ 3 ∷ []))
unfolding run_once dispatch find_callback erase remove
removed_callback_runs = refl

abbrev noting : Session × Socket → List (Option ℕ) → List (Option ℕ)
noting (session, socket) fds = fds ++ (socket.fd ∷ [])

abbrev answers : List AcceptCalls
answers =
    record { accepted = returned 7; flags = returned 0; nonblocking = returned 0 }
    ∷ record { accepted = returned 8; flags = failed; nonblocking = failed }
    ∷ record { accepted = returned 9; flags = returned 0; nonblocking = returned 0 }
    ∷ record { accepted = would_block; flags = failed; nonblocking = failed }
    ∷ []

accept_runs : handle_accept noting answers ([], []) ≡ (some 7 ∷ some 9 ∷ [], 8 ∷ [])
unfolding handle_accept serve_socket accept set_nonblocking close
accept_runs = refl

abbrev taken : ServerCalls
taken = record {
  reuseaddr = returned 0;
  flags = returned 0;
  nonblocking = returned 0;
  any_address = true;
  address = none;
  bound = failed;
  listening = returned 0;
}

-- A port that is taken leaves the event loop as it was; otherwise the socket is watched.
start_runs :
    (start_listening taken true 3 9 watching ≡ (err (of_socket bind_failed), watching))
    × (start_listening (record taken { bound = returned 0 }) true 3 9 watching
        ≡ (ok tt, record watching { callbacks = (3, 9) ∷ watching.callbacks }))
unfolding start_listening listen_steps set_option set_nonblocking bind listen add erase
start_runs = (refl, refl)
