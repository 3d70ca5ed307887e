-- ===== src/DockerRun/Endings.antt =====
-- The status with which a run in a container ends.
use batch_scheduler.Base.{
  String, Bool, true, false, Option, none, some, List, [], ◌∷◌, ◌≡◌, ◌≢◌, ◌↔◌, arith, ◌⊎◌, ap, ◌∙◌,
}
use batch_scheduler.Base.Int.{ℤ, pos, negsuc}
use batch_scheduler.Status.{Status, same_iff}
use batch_scheduler.DockerRun.{DockerRun, Message, wait, wait_loop, finish_wait, conclude, is_zero}
use text.Mathlib.TextEquality.{eq_iff}

is_zero_iff : (z : ℤ) → (is_zero z ≡ true) ↔ (z ≡ pos 0)
is_zero_iff (pos n) = ground arith
is_zero_iff (negsuc n) = ground arith

wait_loop-ne-done : (ms : List Message) → wait_loop ms ≢ some Status.done
unfolding wait_loop
wait_loop-ne-done [] e = cc e
wait_loop-ne-done (Message.ctx_canceled ∷ ms) e = cc e
wait_loop-ne-done (Message.ctx_deadline ∷ ms) e = cc e
wait_loop-ne-done (Message.stopped ∷ ms) e = cc e
wait_loop-ne-done (Message.failed ∷ ms) e = cc e
wait_loop-ne-done (Message.no_error ∷ ms) e = wait_loop-ne-done ms e

conclude-done :
    (inspect : Option (String × ℤ)) (s : Status) (d : DockerRun)
    → s ≢ Status.done
    → ((conclude inspect s d).1 ≡ Status.done) ↔ (inspect ≡ some ("exited", pos 0))
conclude-done none s d h = (λ e. cc, λ e. cc)
conclude-done (some (state, code)) s d h =
    ground (arith, eq_iff state "exited", is_zero_iff code, h)

finish_wait-done :
    (kills : Bool) (inspect : Option (String × ℤ)) (now : ℤ) (s : Status) (d : DockerRun)
    → s ≢ Status.done
    → ((finish_wait kills inspect now s d).1 ≡ Status.done)
      ↔ ((inspect ≡ some ("exited", pos 0)) × ((s ≡ Status.waiting) ⊎ (kills ≡ true)))
unfolding finish_wait
finish_wait-done kills inspect now s d h =
    let ended = conclude-done inspect s (record d { running = false; finish = now }) h in
    ground (arith, ended, same_iff s Status.waiting)

-- `Wait` without a client error reports `Done` exactly where it can inspect the container and this
-- has exited with code 0, whatever ended the loop, a timeout or a cancellation as well; but not
-- where such a container could not be killed.
pub wait-eq-done :
    (messages : List Message) (kills : Bool) (inspect : Option (String × ℤ)) (now : ℤ)
    (d d' : DockerRun) (s t : Status) (fine : Bool)
    → wait_loop messages ≡ some s
    → wait true messages kills inspect now d ≡ some (d', t, fine)
    → (t ≡ Status.done)
      ↔ ((inspect ≡ some ("exited", pos 0)) × ((s ≡ Status.waiting) ⊎ (kills ≡ true)))
unfolding wait
wait-eq-done messages kills inspect now d d' s t fine ended e =
    let whole =
      finish_wait-done kills inspect now s d
        (λ x. wait_loop-ne-done messages (ended ∙ ap some x)) in
    let result : (finish_wait kills inspect now s d).1 ≡ t = ground (arith, ended, e) in
    ground (arith, whole, result)

-- A container that stops by itself, and has not exited with code 0, is reported as `Waiting`, with
-- no error.
pub wait_stopped :
    (later : List Message) (kills : Bool) (state : String) (code now : ℤ) (d : DockerRun)
    → (state ≢ "exited") ⊎ (code ≢ pos 0)
    → wait true (Message.stopped ∷ later) kills (some (state, code)) now d
      ≡ some (record d { running = false; finish = now; exit_code = code }, Status.waiting, true)
unfolding wait finish_wait wait_loop
wait_stopped later kills state code now d failed =
    ground (arith, eq_iff state "exited", is_zero_iff code, failed)
