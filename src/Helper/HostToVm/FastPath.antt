-- ===== src/Helper/HostToVm/FastPath.antt =====
-- The fast path of `write_to_vm` of programs/helper.c: what its loop has sent when it is left.
use mathlib.Core.List.{append_assoc}
use vmnet_helper.Prelude.{
  ℕ, zero, suc, ◌+◌, ◌-◌, ◌≤◌, ◌<◌, ◌≡◌, refl, true, false, List, ◌++◌, Outcome, done, arith, inl,
  inr, ◌==◌, ==_iff, Bool-cases, length, take, drop, u64, length-drop, take-add,
}
use vmnet_helper.System.{Datagram, Trace, Sys, ret, fail, Sys-cases, VmSocket, IsDatagramSocket}
use vmnet_helper.Helper.HostToVm.{
  Bulk, send_bulk, vm_retry_max, vm_retry_delay, may_retry, wait_for_buffer_space,
}

-- The trace after `calls` calls that sent the first `packets` datagrams and slept `retries` times.
abbrev pub bulk_trace : Trace → List Datagram → ℕ → ℕ → ℕ → Trace
bulk_trace t ds packets retries calls = record t {
  received = t.received ++ take packets ds;
  bulk_calls = t.bulk_calls + calls;
  sleeps = t.sleeps + retries;
}

module _ (sys : VmSocket) (lawful : IsDatagramSocket sys) (t : Trace) (ds : List Datagram) where
  -- How the loop stands.
  pub record SentBulk (packets retries fast calls : ℕ) (w : sys.World) : Type 0 where
    pub traced : sys.trace w ≡ bulk_trace t ds packets retries calls
    pub within : packets ≤ length ds
    pub budget : retries ≤ vm_retry_max
    pub counted : fast ≡ u64 calls

  pub sent_more :
      (packets retries fast calls n : ℕ) (w : sys.World)
      → SentBulk packets retries fast calls w
      → packets < length ds
      → (sys.sendmsg_x (drop packets ds) w).0 ≡ ret n
      → (0 < n)
        × SentBulk
            (packets + n)
            retries
            (u64 (fast + 1))
            (calls + 1)
            (sys.sendmsg_x (drop packets ds) w).1
  sent_more packets retries fast calls n w h lt e =
      let range =
        lawful.sendmsg_x_range (drop packets ds) w n e (omega (arith, length-drop packets ds)) in
      (
        range.0,
        record {
          traced = ground (
            arith,
            lawful.trace-sendmsg_x (drop packets ds) w,
            take-add packets n ds,
            append_assoc t.received (take packets ds) (take n (drop packets ds)),
            h.traced,
          );
          within = omega (arith, length-drop packets ds);
          budget = h.budget;
          counted = omega (arith, h.counted);
        },
      )

  pub sent_none :
      (packets retries fast calls errno : ℕ) (w : sys.World)
      → SentBulk packets retries fast calls w
      → (sys.sendmsg_x (drop packets ds) w).0 ≡ fail errno
      → SentBulk packets retries (u64 (fast + 1)) (calls + 1) (sys.sendmsg_x (drop packets ds) w).1
  sent_none packets retries fast calls errno w h e = record {
    traced = ground (arith, lawful.trace-sendmsg_x (drop packets ds) w, h.traced);
    within = h.within;
    budget = h.budget;
    counted = omega (arith, h.counted);
  }

  pub slept_once :
      (packets retries fast calls : ℕ) (w : sys.World)
      → SentBulk packets retries fast calls w
      → retries < vm_retry_max
      → SentBulk packets (retries + 1) fast calls (wait_for_buffer_space sys w)
  unfolding wait_for_buffer_space
  slept_once packets retries fast calls w h lt = record {
    traced = ground (arith, lawful.trace-nanosleep vm_retry_delay w, h.traced);
    within = h.within;
    budget = omega arith;
    counted = h.counted;
  }

  -- The loop is left, by a result that says truly whether all was sent.
  pub record BulkEnds (result : Outcome (Bulk × sys.World)) : Type 0 where
    pub bulk : Bulk
    pub world : sys.World
    pub calls : ℕ
    pub returned : result ≡ done (bulk, world)
    pub sent : SentBulk bulk.packets bulk.retries bulk.fast calls world
    pub all_sent : bulk.complete ≡ true → bulk.packets ≡ length ds

  -- The four ways of a round.
  module _ (fuel packets retries fast : ℕ) (w : sys.World) where
    abbrev sent : Sys × sys.World
    sent = sys.sendmsg_x (drop packets ds) w

    send_bulk_complete :
        (n : ℕ)
        → sent.0 ≡ ret n
        → (packets + n == length ds) ≡ true
        → send_bulk sys (suc fuel) ds (length ds) packets retries fast w
          ≡ done (
            record {
              complete = true;
              packets = packets + n;
              retries = retries;
              fast = u64 (fast + 1);
            },
            sent.1,
          )
    unfolding send_bulk
    send_bulk_complete n e all = ground arith

    send_bulk_more :
        (n : ℕ)
        → sent.0 ≡ ret n
        → (packets + n == length ds) ≡ false
        → send_bulk sys (suc fuel) ds (length ds) packets retries fast w
          ≡ send_bulk sys fuel ds (length ds) (packets + n) retries (u64 (fast + 1)) sent.1
    unfolding send_bulk
    send_bulk_more n e left = ground arith

    send_bulk_retry :
        (errno : ℕ)
        → sent.0 ≡ fail errno
        → may_retry errno retries ≡ true
        → send_bulk sys (suc fuel) ds (length ds) packets retries fast w
          ≡ send_bulk sys fuel ds
              (length ds)
              packets
              (retries + 1)
              (u64 (fast + 1))
              (wait_for_buffer_space sys sent.1)
    unfolding send_bulk
    send_bulk_retry errno e again = ground arith

    send_bulk_give_up :
        (errno : ℕ)
        → sent.0 ≡ fail errno
        → may_retry errno retries ≡ false
        → send_bulk sys (suc fuel) ds (length ds) packets retries fast w
          ≡ done (
            record {
              complete = false;
              packets = packets;
              retries = retries;
              fast = u64 (fast + 1);
            },
            sent.1,
          )
    unfolding send_bulk
    send_bulk_give_up errno e stop = ground arith

  pub send_bulk-BulkEnds :
      (fuel packets retries fast calls : ℕ) (w : sys.World)
      → SentBulk packets retries fast calls w
      → packets < length ds
      → (vm_retry_max - retries) + (length ds - packets) ≤ fuel
      → BulkEnds (send_bulk sys fuel ds (length ds) packets retries fast w)
  send_bulk-BulkEnds zero packets retries fast calls w h lt enough =
      absurd (omega (arith, h.budget))
  send_bulk-BulkEnds (suc fuel) packets retries fast calls w h lt enough =
      elim (Sys-cases (sys.sendmsg_x (drop packets ds) w).0) [
        | inl (n, e) ↦
            let (pos, more) = sent_more packets retries fast calls n w h lt e in
            elim (Bool-cases (packets + n == length ds)) [
              | inl all ↦ rw (send_bulk_complete fuel packets retries fast w n e all) (record {
                bulk = record {
                  complete = true;
                  packets = packets + n;
                  retries = retries;
                  fast = u64 (fast + 1);
                };
                world = (sys.sendmsg_x (drop packets ds) w).1;
                calls = calls + 1;
                returned = refl;
                sent = more;
                all_sent = λ _. (==_iff (packets + n) (length ds)).0 all;
              })
              | inr some_left ↦ rw (send_bulk_more fuel packets retries fast w n e some_left) (
                  send_bulk-BulkEnds fuel (packets + n) retries (u64 (fast + 1)) (calls + 1)
                    (sys.sendmsg_x (drop packets ds) w).1 more (ground (arith, more.within))
                    (omega arith))
            ]
        | inr (errno, e) ↦
            let none_sent = sent_none packets retries fast calls errno w h e in
            elim (Bool-cases (may_retry errno retries)) [
              | inl again ↦
                  let left : retries < vm_retry_max = ground arith in
                  rw (send_bulk_retry fuel packets retries fast w errno e again) (
                    send_bulk-BulkEnds fuel packets (retries + 1) (u64 (fast + 1)) (calls + 1)
                      (wait_for_buffer_space sys (sys.sendmsg_x (drop packets ds) w).1)
                      (slept_once packets retries (u64 (fast + 1)) (calls + 1)
                        (sys.sendmsg_x (drop packets ds) w).1 none_sent left)
                      lt (omega arith))
              | inr stop ↦ rw (send_bulk_give_up fuel packets retries fast w errno e stop) (record {
                bulk = record {
                  complete = false;
                  packets = packets;
                  retries = retries;
                  fast = u64 (fast + 1);
                };
                world = (sys.sendmsg_x (drop packets ds) w).1;
                calls = calls + 1;
                returned = refl;
                sent = none_sent;
                all_sent = λ c. cc;
              })
            ]
      ]
