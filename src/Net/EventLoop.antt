-- ===== src/Net/EventLoop.antt =====
-- EpollLoop of src/net/epoll_loop.cpp. What the system answers is a parameter; a callback is a value
-- of `H`, and what calling it does to the loop and to the rest of the program another parameter.
use rtmp_abr_transcoder.Base.{
  ℕ, Bool, true, false, List, [], ◌∷◌, Option, none, some, Result, ok, err, ◌==◌, if◌then◌else◌,
}

pub data LoopError : Type 0 where
  add_failed modify_failed remove_failed wait_failed : LoopError

pub record EventLoop (H : Type 0) : Type 0 where
  pub running : Bool
  pub callbacks : List (ℕ × H)

-- EpollLoop(), which throws where epoll_create1 fails.
unfoldable pub new_loop : {H : Type 0} → Bool → Option (EventLoop H)
new_loop false = none
new_loop true = some (record { running = false; callbacks = [] })

-- callbacks_.find(fd).
unfoldable pub find_callback : {H : Type 0} → ℕ → List (ℕ × H) → Option H
find_callback fd [] = none
find_callback fd ((key, h) ∷ hs) =
    let rest = find_callback fd hs in if key == fd then some h else rest

-- callbacks_.erase(fd).
unfoldable pub erase : {H : Type 0} → ℕ → List (ℕ × H) → List (ℕ × H)
erase fd [] = []
erase fd ((key, h) ∷ hs) = let rest = erase fd hs in if key == fd then rest else (key, h) ∷ rest

-- `done` is whether epoll_ctl succeeds. callbacks_[fd] = callback.
unfoldable pub add :
    {H : Type 0} → Bool → ℕ → H → EventLoop H → Result LoopError (Unit {0}) × EventLoop H
add false fd h loop = (err add_failed, loop)
add true fd h loop = (ok tt, record loop { callbacks = (fd, h) ∷ erase fd loop.callbacks })

unfoldable pub modify : Bool → Result LoopError (Unit {0})
modify false = err modify_failed
modify true = ok tt

unfoldable pub remove :
    {H : Type 0} → Bool → ℕ → EventLoop H → Result LoopError (Unit {0}) × EventLoop H
remove false fd loop = (err remove_failed, loop)
remove true fd loop = (ok tt, record loop { callbacks = erase fd loop.callbacks })

abbrev pub start_running : {H : Type 0} → EventLoop H → EventLoop H
start_running loop = record loop { running = true }

abbrev pub stop_running : {H : Type 0} → EventLoop H → EventLoop H
stop_running loop = record loop { running = false }

-- What epoll_wait answers: descriptors with their events, at most 32, an interruption or an error.
pub data WaitResult : Type 0 where
  ready : List (ℕ × ℕ) → WaitResult
  interrupted : WaitResult
  wait_error : WaitResult

module _ {H W : Type 0} (call : H → ℕ → EventLoop H × W → EventLoop H × W) where
  -- The loop over the events: each looks up the callback that is stored then.
  unfoldable pub dispatch : List (ℕ × ℕ) → EventLoop H × W → EventLoop H × W
  dispatch [] s = s
  dispatch ((fd, ev) ∷ events) (loop, w) = elim (find_callback fd loop.callbacks) [
    | none ↦ dispatch events (loop, w)
    | some h ↦ dispatch events (call h ev (loop, w))
  ]

  unfoldable pub run_once :
      WaitResult → EventLoop H × W → Result LoopError (Unit {0}) × (EventLoop H × W)
  run_once (ready events) s = (ok tt, dispatch events s)
  run_once interrupted s = (ok tt, s)
  run_once wait_error s = (err wait_failed, s)
