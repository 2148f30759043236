-- ===== src/Proxy/Stuck.antt =====
-- Where the two threads of src/clientproxy.c can go no further.
use allonet.Common.{◌≡◌, ◌↔◌, ◌⊎◌, refl, Bool, true, false, arith, inl, inr}
use allonet.Proxy.Locks.{
  Purpose, message, leaving, stats, ProxyAt, outside, poll_waits, polling, count_waits, counting,
  send_waits, sending, joining, gone, BridgeAt, network, report_waits, reporting, check_waits,
  checking, ended, proxy_holds_p2b, after_sending, call, Step, start_poll, poll_again, lock_poll,
  end_poll, answer, lock_send, sent, lock_count, counted, joined, report, lock_report, reported,
  check, lock_check, fail_to_connect, checked, stop, Reaches, start, onward, IsStuck,
}

-- Each thread waits, in `mtx_lock` or in `thrd_join`: for the other one, or the program's for itself.
pub data IsDeadlock : ProxyAt → BridgeAt → Type 0 where
  crossed : (purpose : Purpose) → IsDeadlock (send_waits true purpose) (report_waits true)
  left_in_poll : (in_check : Bool) → IsDeadlock (joining true) (report_waits in_check)
  polled_in_poll : (in_check : Bool) → IsDeadlock (poll_waits true) (report_waits in_check)
  counted_in_poll : (in_check : Bool) → IsDeadlock (count_waits true) (report_waits in_check)

-- The network's thread has ended, and `thrd_join` has returned.
pub data IsDone : ProxyAt → BridgeAt → Type 0 where
  both : IsDone gone ended

-- Who has returned from `thrd_join` has waited for the end.
abbrev IsJoined : ProxyAt → BridgeAt → Type 0
IsJoined p b = p ≡ gone → b ≡ ended

Step-IsJoined : {p q : ProxyAt} {b c : BridgeAt} → Step p b q c → IsJoined p b → IsJoined q c
Step-IsJoined (joined in_poll) j = λ e. refl
Step-IsJoined (sent true message b) j = λ e. cc
Step-IsJoined (sent false message b) j = λ e. cc
Step-IsJoined (sent in_poll leaving b) j = λ e. cc
Step-IsJoined (sent in_poll stats b) j = λ e. cc
Step-IsJoined (report p) j = λ e. ground (arith, j e)
Step-IsJoined (lock_report p in_check free) j = λ e. ground (arith, j e)
Step-IsJoined (reported p in_check) j = λ e. ground (arith, j e)
Step-IsJoined (check p) j = λ e. ground (arith, j e)
Step-IsJoined (lock_check p free) j = λ e. ground (arith, j e)
Step-IsJoined (fail_to_connect p) j = λ e. ground (arith, j e)
Step-IsJoined (checked p) j = λ e. ground (arith, j e)
Step-IsJoined _ j = λ e. cc

Reaches-IsJoined : {p : ProxyAt} {b : BridgeAt} → Reaches p b → IsJoined p b
Reaches-IsJoined start = λ e. cc
Reaches-IsJoined (onward p q b c r st) = Step-IsJoined st (Reaches-IsJoined r)

-- The network's thread ends only for one who waits in `thrd_join`.
abbrev is_leaving : ProxyAt → Bool
is_leaving (joining in_poll) = true
is_leaving gone = true
is_leaving _ = false

abbrev IsAwaited : ProxyAt → BridgeAt → Type 0
IsAwaited p b = b ≡ ended → is_leaving p ≡ true

Step-IsAwaited : {p q : ProxyAt} {b c : BridgeAt} → Step p b q c → IsAwaited p b → IsAwaited q c
Step-IsAwaited (stop in_poll) a = λ e. refl
Step-IsAwaited (joined in_poll) a = λ e. refl
Step-IsAwaited (report p) a = λ e. cc
Step-IsAwaited (lock_report p in_check free) a = λ e. cc
Step-IsAwaited (reported p true) a = λ e. cc
Step-IsAwaited (reported p false) a = λ e. cc
Step-IsAwaited (check p) a = λ e. cc
Step-IsAwaited (lock_check p free) a = λ e. cc
Step-IsAwaited (fail_to_connect p) a = λ e. cc
Step-IsAwaited (checked p) a = λ e. cc
Step-IsAwaited (start_poll b) a = λ e. ground (arith, a e)
Step-IsAwaited (poll_again b) a = λ e. ground (arith, a e)
Step-IsAwaited (lock_poll in_poll b own free) a = λ e. ground (arith, a e)
Step-IsAwaited (end_poll b) a = λ e. ground (arith, a e)
Step-IsAwaited (call purpose b) a = λ e. ground (arith, a e)
Step-IsAwaited (answer purpose b) a = λ e. ground (arith, a e)
Step-IsAwaited (lock_send in_poll purpose b free) a = λ e. ground (arith, a e)
Step-IsAwaited (sent in_poll purpose b) a = λ e. ground (arith, a e)
Step-IsAwaited (lock_count in_poll b own free) a = λ e. ground (arith, a e)
Step-IsAwaited (counted b) a = λ e. ground (arith, a e)

Reaches-IsAwaited : {p : ProxyAt} {b : BridgeAt} → Reaches p b → IsAwaited p b
Reaches-IsAwaited start = λ e. cc
Reaches-IsAwaited (onward p q b c r st) = Step-IsAwaited st (Reaches-IsAwaited r)

no_leaving : false ≡ true → ⊥
no_leaving e = cc

-- What a pair of points allows.
data Next (p : ProxyAt) (b : BridgeAt) : Type 0 where
  moves : (q : ProxyAt) (c : BridgeAt) → Step p b q c → Next p b
  deadlock : IsDeadlock p b → Next p b
  done : IsDone p b → Next p b

next : (p : ProxyAt) (b : BridgeAt) → IsJoined p b → IsAwaited p b → Next p b
next outside b j a = moves _ _ (start_poll b)
next polling b j a = moves _ _ (end_poll b)
next counting b j a = moves _ _ (counted b)
next (sending in_poll purpose) b j a = moves _ _ (sent in_poll purpose b)
next gone ended j a = done both
next p network j a = moves _ _ (report p)
next p (reporting in_check) j a = moves _ _ (reported p in_check)
next p checking j a = moves _ _ (checked p)
next gone (report_waits in_check) j a = moves _ _ (lock_report gone in_check refl)
next gone check_waits j a = moves _ _ (lock_check gone refl)
next (poll_waits false) b j a = moves _ _ (lock_poll false b refl refl)
next (poll_waits true) (report_waits in_check) j a = deadlock (polled_in_poll in_check)
next (poll_waits true) check_waits j a = moves _ _ (lock_check (poll_waits true) refl)
next (poll_waits true) ended j a = absurd (no_leaving (a refl))
next (count_waits false) b j a = moves _ _ (lock_count false b refl refl)
next (count_waits true) (report_waits in_check) j a = deadlock (counted_in_poll in_check)
next (count_waits true) check_waits j a = moves _ _ (lock_check (count_waits true) refl)
next (count_waits true) ended j a = absurd (no_leaving (a refl))
next (send_waits true purpose) (report_waits true) j a = deadlock (crossed purpose)
next (send_waits false purpose) (report_waits true) j a =
    moves _ _ (lock_report (send_waits false purpose) true refl)
next (send_waits in_poll purpose) (report_waits false) j a =
    moves _ _ (lock_send in_poll purpose (report_waits false) refl)
next (send_waits in_poll purpose) check_waits j a =
    moves _ _ (lock_send in_poll purpose check_waits refl)
next (send_waits in_poll purpose) ended j a = moves _ _ (lock_send in_poll purpose ended refl)
next (joining true) (report_waits in_check) j a = deadlock (left_in_poll in_check)
next (joining false) (report_waits in_check) j a =
    moves _ _ (lock_report (joining false) in_check refl)
next (joining in_poll) check_waits j a = moves _ _ (lock_check (joining in_poll) refl)
next (joining in_poll) ended j a = moves _ _ (joined in_poll)

deadlock-IsStuck : (p : ProxyAt) (b : BridgeAt) → IsDeadlock p b → IsStuck p b
deadlock-IsStuck _ _ (crossed purpose) q c (lock_send _ _ _ taken) = cc
deadlock-IsStuck _ _ (crossed purpose) q c (lock_report _ _ taken) = cc
deadlock-IsStuck _ _ (left_in_poll in_check) q c (lock_report _ _ taken) = cc
deadlock-IsStuck _ _ (polled_in_poll in_check) q c (lock_report _ _ taken) = cc
deadlock-IsStuck _ _ (polled_in_poll in_check) q c (lock_poll _ _ own taken) = cc
deadlock-IsStuck _ _ (counted_in_poll in_check) q c (lock_report _ _ taken) = cc
deadlock-IsStuck _ _ (counted_in_poll in_check) q c (lock_count _ _ own taken) = cc

done-IsStuck : (p : ProxyAt) (b : BridgeAt) → IsDone p b → IsStuck p b
done-IsStuck _ _ both q c st = elim st [ ]

-- The network's thread gets to report something while the program's waits or sends in a callback.
to_failing :
    (p : ProxyAt) → proxy_holds_p2b p ≡ false → Reaches p network → Reaches p (report_waits true)
to_failing p free r =
    onward _ _ _ _ (onward _ _ _ _ (onward _ _ _ _ r (check p)) (lock_check p free))
      (fail_to_connect p)

to_reporting :
    (p : ProxyAt) (in_check : Bool)
    → proxy_holds_p2b p ≡ false
    → Reaches p network
    → Reaches p (report_waits in_check)
to_reporting p true free r = to_failing p free r
to_reporting p false free r = onward _ _ _ _ r (report p)

to_polling : Reaches polling network
to_polling =
    onward _ _ _ _ (onward _ _ _ _ start (start_poll network)) (lock_poll false network refl refl)

to_sending : (purpose : Purpose) → Reaches (send_waits true purpose) network
to_sending purpose = onward _ _ _ _ to_polling (answer purpose network)

to_sent : (purpose : Purpose) → Reaches (after_sending true purpose) network
to_sent purpose =
    onward _ _ _ _ (onward _ _ _ _ (to_sending purpose) (lock_send true purpose network refl))
      (sent true purpose network)

to_joining : Reaches (joining true) network
to_joining = to_sent leaving

to_deadlock : (p : ProxyAt) (b : BridgeAt) → IsDeadlock p b → Reaches p b
to_deadlock _ _ (crossed purpose) = to_failing (send_waits true purpose) refl (to_sending purpose)
to_deadlock _ _ (left_in_poll in_check) = to_reporting (joining true) in_check refl to_joining
to_deadlock _ _ (polled_in_poll in_check) =
    to_reporting (poll_waits true) in_check refl (onward _ _ _ _ to_polling (poll_again network))
to_deadlock _ _ (counted_in_poll in_check) =
    to_reporting (count_waits true) in_check refl (to_sent stats)

to_end : Reaches gone ended
to_end =
    let locked =
      onward _ _ _ _ (onward _ _ _ _ to_joining (check (joining true)))
        (lock_check (joining true) refl) in
    onward _ _ _ _ (onward _ _ _ _ locked (stop true)) (joined true)

to_done : (p : ProxyAt) (b : BridgeAt) → IsDone p b → Reaches p b
to_done _ _ both = to_end

-- The states that the two threads can get to and in which neither can take a step are exactly
-- these: the network's thread has ended and `thrd_join` has returned, or one of four deadlocks. In
-- the first, the program's thread handles a message of the poll, with the lock of that queue, and
-- waits for the lock of the other queue, to send a message, to disconnect or for the statistics,
-- while the bridge handles a connection that failed, with that lock, and waits to report it. In the
-- other three, a callback of the poll has disconnected and waits for the network's thread to end, or
-- polls again, or asks for the statistics and waits for the lock that the poll holds, and the
-- network's thread waits to report something.
pub Reaches-IsStuck :
    (p : ProxyAt) (b : BridgeAt) → (Reaches p b × IsStuck p b) ↔ (IsDeadlock p b ⊎ IsDone p b)
Reaches-IsStuck p b = (
  λ h. elim (next p b (Reaches-IsJoined h.0) (Reaches-IsAwaited h.0)) [
    | moves q c st ↦ absurd (h.1 q c st)
    | deadlock d ↦ inl d
    | done d ↦ inr d
  ],
  λ h. elim h [
    | inl d ↦ (to_deadlock p b d, deadlock-IsStuck p b d)
    | inr d ↦ (to_done p b d, done-IsStuck p b d)
  ],
)
