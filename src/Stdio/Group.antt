-- ===== src/Stdio/Group.antt =====
-- `child_exited` and `terminate_child_group` of stdio_owner.py, on the state of the group's leader.
-- A process ID names the leader until it is reaped: a signal after that could reach another group,
-- and is the outcome `stray_signal` here.
use samgita.Prelude.{
  ℕ, ◌+◌, ◌≡◌, ◌≢◌, refl, Bool, true, false, List, [], ◌∷◌, ◌++◌, ◌||◌, leb, if◌then◌else◌,
  Bool-cases, inl, inr, ◌∙◌, any, arith,
}

pub data Leader : Type 0 where
  alive zombie reaped : Leader

pub data Signal : Type 0 where
  sigterm sigkill : Signal

pub record Group : Type 0 where
  pub leader : Leader
  pub signals : List Signal

pub data Outcome : Type 0 where
  done : Group → Outcome
  stray_signal : Outcome
  waiting : Group → Outcome

-- What a round of the wait loop sees: whether the leader has exited, and the clock.
pub record Round : Type 0 where
  pub exited : Bool
  pub now : ℕ

-- The leader may exit on its own at any time.
exit_by : Bool → Leader → Leader
exit_by true alive = zombie
exit_by _ leader = leader

is_exited : Leader → Bool
is_exited alive = false
is_exited _ = true

-- os.waitid with WNOWAIT, where the system is POSIX: the leader stays waitable.
child_exited : Round → Group → Bool × Group
unfolding exit_by is_exited
child_exited round g =
    let leader = exit_by round.exited g.leader in (is_exited leader, record g { leader = leader })

-- os.killpg
kill_at : Leader → Signal → Group → Outcome
kill_at reaped signal g = stray_signal
kill_at _ signal g = done (record g { signals = g.signals ++ signal ∷ [] })

killpg : Signal → Group → Outcome
unfolding kill_at
killpg signal g = kill_at g.leader signal g

-- child.wait(), once the leader has been killed
wait : Group → Outcome
wait g = done (record g { leader = reaped })

infixl 5 ◌then_do◌
abbrev ◌then_do◌ : Outcome → (Group → Outcome) → Outcome
done g then_do f = f g
stray_signal then_do f = stray_signal
waiting g then_do f = waiting g

-- `while not child_exited(child) and time.monotonic() < deadline`
await_exit : ℕ → List Round → Group → Outcome
unfolding child_exited
await_exit deadline [] g = waiting g
await_exit deadline (round ∷ rounds) g =
    let (exited, g') = child_exited round g in
    let again = await_exit deadline rounds g' in
    if exited || leb deadline round.now then done g' else again

terminate_posix : ℕ → List Round → Group → Outcome
unfolding killpg wait await_exit
terminate_posix start rounds g =
    killpg sigterm g then_do await_exit (start + 100) rounds then_do killpg sigkill then_do wait

-- Elsewhere: `poll` reaps a child that has exited, and only the child itself is signalled.
-- `ended` is what it finds, `in_time` whether `child.wait(timeout=1.0)` returns.
terminate_other : (ended in_time : Bool) → Group → Outcome
unfolding killpg wait
terminate_other ended in_time g =
    if ended
    then wait g
    else if in_time
    then (killpg sigterm g then_do wait)
    else (killpg sigterm g then_do killpg sigkill then_do wait)

unfoldable pub terminate_child_group :
    (posix : Bool) → ℕ → List Round → (ended in_time : Bool) → Group → Outcome
unfolding terminate_posix terminate_other
terminate_child_group posix start rounds ended in_time g =
    if posix then terminate_posix start rounds g else terminate_other ended in_time g

-- The wait loop reaps nothing and signals nothing.
abbrev Awaited : List Signal → Outcome → Type 0
Awaited sent (done g) = (g.leader ≢ reaped) × (g.signals ≡ sent)
Awaited sent stray_signal = ⊥
Awaited sent (waiting g) = (g.leader ≢ reaped) × (g.signals ≡ sent)

child_exited-keeps :
    (round : Round) (g : Group)
    → g.leader ≢ reaped
    → ((child_exited round g).1.leader ≢ reaped) × ((child_exited round g).1.signals ≡ g.signals)
unfolding child_exited
child_exited-keeps round g h = ground arith

await_exit-Awaited :
    (deadline : ℕ) (rounds : List Round) (g : Group) {sent : List Signal}
    → g.leader ≢ reaped
    → g.signals ≡ sent
    → Awaited sent (await_exit deadline rounds g)
unfolding await_exit
await_exit-Awaited deadline [] g h e = (h, e)
await_exit-Awaited deadline (round ∷ rounds) g h e =
    let kept = child_exited-keeps round g h in
    let more = await_exit-Awaited deadline rounds (child_exited round g).1 kept.0 (kept.1 ∙ e) in
    elim (Bool-cases ((child_exited round g).0 || leb deadline round.now)) [
      | inl stop ↦ rw stop (kept.0, kept.1 ∙ e)
      | inr go ↦ rw go more
    ]

await_exit-done :
    (deadline : ℕ) (rounds : List Round) (g : Group)
    → any (λ r. leb deadline r.now) rounds ≡ true
    → (g' : Group) × (await_exit deadline rounds g ≡ done g')
unfolding await_exit
await_exit-done deadline [] g h = ground arith
await_exit-done deadline (round ∷ rounds) g h =
    elim (Bool-cases ((child_exited round g).0 || leb deadline round.now)) [
      | inl stop ↦ ((child_exited round g).1, rw stop)
      | inr go ↦
          let (g', e) = await_exit-done deadline rounds (child_exited round g).1 (ground arith) in
          (g', rw go e)
    ]

-- Both signals went out, in order and before the leader was reaped.
abbrev pub Cleaned : List Signal → Outcome → Type 0
Cleaned sent (done g) = (g.leader ≡ reaped) × (g.signals ≡ (sent ++ sigterm ∷ []) ++ sigkill ∷ [])
Cleaned sent stray_signal = ⊥
Cleaned sent (waiting g) = (g.leader ≢ reaped) × (g.signals ≡ sent ++ sigterm ∷ [])

killpg_lem :
    (signal : Signal) (g : Group)
    → g.leader ≢ reaped
    → killpg signal g ≡ done (record g { signals = g.signals ++ signal ∷ [] })
unfolding killpg
killpg_lem signal g h = ground arith

finish-Cleaned :
    (sent : List Signal) (o : Outcome)
    → Awaited (sent ++ sigterm ∷ []) o
    → Cleaned sent (o then_do killpg sigkill then_do wait)
unfolding wait
finish-Cleaned sent (done g) h = rw (killpg_lem sigkill g h.0) (refl, rw (h.1))
finish-Cleaned sent stray_signal h = h
finish-Cleaned sent (waiting g) h = h

-- On POSIX, whatever the rounds of the wait loop show and whenever the leader exits on its own: no
-- signal is sent once the leader is reaped. While the loop goes on only SIGTERM was sent; when the
-- call ends, SIGTERM and then SIGKILL were sent to the group, and the leader is reaped.
pub terminate_child_group-Cleaned :
    (start : ℕ) (rounds : List Round) (ended in_time : Bool) (g : Group)
    → g.leader ≢ reaped
    → Cleaned g.signals (terminate_child_group true start rounds ended in_time g)
unfolding terminate_child_group
terminate_child_group-Cleaned start rounds ended in_time g h = rw (killpg_lem sigterm g h) (
    finish-Cleaned g.signals _ (
      await_exit-Awaited (start + 100) rounds (record g { signals = g.signals ++ sigterm ∷ [] }) h
        refl))

finish-total :
    (sent : List Signal) (o : Outcome) (g : Group)
    → o ≡ done g
    → Awaited sent o
    → (g' : Group) × ((o then_do killpg sigkill then_do wait) ≡ done g') × (g'.leader ≡ reaped)
unfolding wait
finish-total sent (done k) g e h = (
  record k { leader = reaped; signals = k.signals ++ sigkill ∷ [] },
  rw (killpg_lem sigkill k h.0),
  refl,
)
finish-total sent stray_signal g e h = absurd h
finish-total sent (waiting k) g e h = cc

terminate_other-total :
    (ended in_time : Bool) (g : Group)
    → g.leader ≢ reaped
    → (g' : Group) × (terminate_other ended in_time g ≡ done g') × (g'.leader ≡ reaped)
unfolding terminate_other
terminate_other-total true in_time g h = (record g { leader = reaped }, refl, refl)
terminate_other-total false true g h = (
  record g { leader = reaped; signals = g.signals ++ sigterm ∷ [] },
  rw (killpg_lem sigterm g h),
  refl,
)
terminate_other-total false false g h =
    let g' : Group = record g { signals = g.signals ++ sigterm ∷ [] } in
    (
      record g { leader = reaped; signals = g'.signals ++ sigkill ∷ [] },
      rw (killpg_lem sigterm g h) (rw (killpg_lem sigkill g' h)),
      refl,
    )

-- On POSIX the call ends with the leader reaped if some round finds the clock a second past the
-- start; elsewhere it ends so in every case.
pub terminate_child_group-total :
    (posix : Bool) (start : ℕ) (rounds : List Round) (ended in_time : Bool) (g : Group)
    → g.leader ≢ reaped
    → any (λ r. leb (start + 100) r.now) rounds ≡ true
    → (g' : Group) × (terminate_child_group posix start rounds ended in_time g ≡ done g')
      × (g'.leader ≡ reaped)
unfolding terminate_child_group
terminate_child_group-total true start rounds ended in_time g h late =
    let g' : Group = record g { signals = g.signals ++ sigterm ∷ [] } in
    let (k, e) = await_exit-done (start + 100) rounds g' late in
    rw (killpg_lem sigterm g h)
      (finish-total g'.signals _ k e (await_exit-Awaited (start + 100) rounds g' h refl))
terminate_child_group-total false start rounds ended in_time g h late =
    terminate_other-total ended in_time g h
