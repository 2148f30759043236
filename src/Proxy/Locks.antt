-- ===== src/Proxy/Locks.antt =====
-- The two mutexes of src/clientproxy.c. Each thread is at a point of the code, which says which of
-- the mutexes it holds; what it does under a mutex beyond taking the other one is left out.
use allonet.Common.{◌≡◌, Bool, true, false}

-- What `proxy_to_bridge_mtx` is taken for: `enqueue_proxy_to_bridge`, called by
-- `proxy_alloclient_disconnect` or by another function, or `proxy_alloclient_get_stats`.
pub data Purpose : Type 0 where
  message leaving stats : Purpose

-- The program's thread: outside the proxy; before and under the lock of `proxy_alloclient_poll`;
-- before and under the lock of `proxy_to_bridge_mtx`; before and under the other lock of
-- `proxy_alloclient_get_stats`; in `thrd_join`; and after it. All but the poll and what is under the
-- lock of the statistics also as called in a callback of the poll, the poll itself included.
pub data ProxyAt : Type 0 where
  outside polling counting : ProxyAt
  poll_waits count_waits : (in_poll : Bool) → ProxyAt
  send_waits sending : (in_poll : Bool) (purpose : Purpose) → ProxyAt
  joining : (in_poll : Bool) → ProxyAt
  gone : ProxyAt

-- The network's thread: in `bridge_check_for_network`; before and under the lock of
-- `enqueue_bridge_to_proxy`, called by the network or, when a connection fails, from
-- `bridge_check_for_messages`; before and under the lock of the latter; and at its end.
pub data BridgeAt : Type 0 where
  network : BridgeAt
  report_waits reporting : (in_check : Bool) → BridgeAt
  check_waits checking ended : BridgeAt

-- Who holds `bridge_to_proxy_mtx`, and who `proxy_to_bridge_mtx`.
abbrev pub proxy_holds_b2p : ProxyAt → Bool
proxy_holds_b2p polling = true
proxy_holds_b2p counting = true
proxy_holds_b2p (poll_waits in_poll) = in_poll
proxy_holds_b2p (count_waits in_poll) = in_poll
proxy_holds_b2p (send_waits in_poll _) = in_poll
proxy_holds_b2p (sending in_poll _) = in_poll
proxy_holds_b2p (joining in_poll) = in_poll
proxy_holds_b2p _ = false

abbrev pub proxy_holds_p2b : ProxyAt → Bool
proxy_holds_p2b (sending _ _) = true
proxy_holds_p2b _ = false

abbrev pub bridge_holds_b2p : BridgeAt → Bool
bridge_holds_b2p (reporting _) = true
bridge_holds_b2p _ = false

abbrev pub bridge_holds_p2b : BridgeAt → Bool
bridge_holds_p2b checking = true
bridge_holds_p2b (report_waits in_check) = in_check
bridge_holds_p2b (reporting in_check) = in_check
bridge_holds_p2b _ = false

abbrev pub back_in_poll : Bool → ProxyAt
back_in_poll true = polling
back_in_poll false = outside

-- After `mtx_unlock` of `proxy_to_bridge_mtx`.
abbrev pub after_sending : Bool → Purpose → ProxyAt
after_sending in_poll message = back_in_poll in_poll
after_sending in_poll leaving = joining in_poll
after_sending in_poll stats = count_waits in_poll

abbrev pub back_in_check : Bool → BridgeAt
back_in_check true = checking
back_in_check false = network

-- A step of one thread; `mtx_lock` only if neither thread holds that mutex, its own included, since
-- the mutexes are made with `mtx_plain`.
pub data Step : ProxyAt → BridgeAt → ProxyAt → BridgeAt → Type 0 where
  start_poll : (b : BridgeAt) → Step outside b (poll_waits false) b
  poll_again : (b : BridgeAt) → Step polling b (poll_waits true) b
  lock_poll :
      (in_poll : Bool) (b : BridgeAt)
      → proxy_holds_b2p (poll_waits in_poll) ≡ false
      → bridge_holds_b2p b ≡ false
      → Step (poll_waits in_poll) b polling b
  end_poll : (b : BridgeAt) → Step polling b outside b
  call : (purpose : Purpose) (b : BridgeAt) → Step outside b (send_waits false purpose) b
  answer : (purpose : Purpose) (b : BridgeAt) → Step polling b (send_waits true purpose) b
  lock_send :
      (in_poll : Bool) (purpose : Purpose) (b : BridgeAt)
      → bridge_holds_p2b b ≡ false
      → Step (send_waits in_poll purpose) b (sending in_poll purpose) b
  sent :
      (in_poll : Bool) (purpose : Purpose) (b : BridgeAt)
      → Step (sending in_poll purpose) b (after_sending in_poll purpose) b
  lock_count :
      (in_poll : Bool) (b : BridgeAt)
      → proxy_holds_b2p (count_waits in_poll) ≡ false
      → bridge_holds_b2p b ≡ false
      → Step (count_waits in_poll) b counting b
  counted : (b : BridgeAt) → Step counting b outside b
  joined : (in_poll : Bool) → Step (joining in_poll) ended gone ended
  report : (p : ProxyAt) → Step p network p (report_waits false)
  lock_report :
      (p : ProxyAt) (in_check : Bool)
      → proxy_holds_b2p p ≡ false
      → Step p (report_waits in_check) p (reporting in_check)
  reported :
      (p : ProxyAt) (in_check : Bool) → Step p (reporting in_check) p (back_in_check in_check)
  check : (p : ProxyAt) → Step p network p check_waits
  lock_check : (p : ProxyAt) → proxy_holds_p2b p ≡ false → Step p check_waits p checking
  fail_to_connect : (p : ProxyAt) → Step p checking p (report_waits true)
  checked : (p : ProxyAt) → Step p checking p network
  stop : (in_poll : Bool) → Step (joining in_poll) checking (joining in_poll) ended

pub data Reaches : ProxyAt → BridgeAt → Type 0 where
  start : Reaches outside network
  onward : (p q : ProxyAt) (b c : BridgeAt) → Reaches p b → Step p b q c → Reaches q c

-- Neither thread can take a step.
abbrev pub IsStuck : ProxyAt → BridgeAt → Type 0
IsStuck p b = (q : ProxyAt) (c : BridgeAt) → Step p b q c → ⊥
