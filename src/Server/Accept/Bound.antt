-- ===== src/Server/Accept/Bound.antt =====
-- The number of connections is bounded, and counted right.
use pendem.Base.{ℕ, suc, ◌+◌, ◌≤◌, true, ◌≡◌, refl, ap, arith}
use pendem.Base.Int.{ℤ, pos_part}
use pendem.Server.Accept.{
  Loop, admitted, Life, new_life, int32, has_place, Step, see_quit, wait, accept_closed,
  accept_error, refuse_quit, accept, refuse_full, admit, launch, join, refuse, enter, leave_closed,
  leave_quit, read, fail_read, receive, interrupt, reply, finish, close_quit, close_listener, Steps,
  no_step, next,
}

abbrev is_admitted : Loop → ℕ
is_admitted admitted = 1
is_admitted _ = 0

-- The counter is that of the connections that run, and with the one that is about to be started it
-- is within the limit.
pub record IsBounded (max_connections : ℤ) (s : Life) : Type 0 where
  pub counted : s.active_conn ≡ s.starting + s.joined + s.serving + s.reading + s.handling
  pub bounded : s.active_conn + is_admitted s.loop ≤ pos_part (int32 max_connections)

module _ (max : ℤ) where
  has_place-lt : (n : ℕ) → has_place max n ≡ true → suc n ≤ pos_part (int32 max)
  unfolding has_place
  has_place-lt n h = ground arith

  Step-IsBounded : (s t : Life) → IsBounded max s → Step max s t → IsBounded max t
  Step-IsBounded _ _ b (see_quit s e q) = record {
    counted = b.counted;
    bounded = omega (arith, b.bounded);
  }
  Step-IsBounded _ _ b (wait s e q) = record {
    counted = b.counted;
    bounded = omega (arith, b.bounded);
  }
  Step-IsBounded _ _ b (accept_closed s e c) = record {
    counted = b.counted;
    bounded = omega (arith, b.bounded);
  }
  Step-IsBounded _ _ b (accept_error s e c) = record {
    counted = b.counted;
    bounded = omega (arith, b.bounded);
  }
  Step-IsBounded _ _ b (refuse_quit s e q) = record {
    counted = b.counted;
    bounded = omega (arith, b.bounded);
  }
  Step-IsBounded _ _ b (accept s e q) = record {
    counted = b.counted;
    bounded = omega (arith, b.bounded);
  }
  Step-IsBounded _ _ b (refuse_full s e q) = record {
    counted = b.counted;
    bounded = omega (arith, b.bounded);
  }
  Step-IsBounded _ _ b (admit s e h) = record {
    counted = b.counted;
    bounded = omega (arith, has_place-lt s.active_conn h);
  }
  Step-IsBounded _ _ b (launch s e) = record {
    counted = omega (arith, b.counted);
    bounded = let room = ap is_admitted e in omega (arith, b.bounded, room);
  }
  Step-IsBounded _ _ b (join s n e) = record {
    counted = omega (arith, b.counted, e);
    bounded = omega (arith, b.counted, b.bounded, e);
  }
  Step-IsBounded _ _ b (leave_closed s n e) = record {
    counted = omega (arith, b.counted, e);
    bounded = omega (arith, b.counted, b.bounded, e);
  }
  Step-IsBounded _ _ b (fail_read s n e) = record {
    counted = omega (arith, b.counted, e);
    bounded = omega (arith, b.counted, b.bounded, e);
  }
  Step-IsBounded _ _ b (receive s n e) = record {
    counted = omega (arith, b.counted, e);
    bounded = omega (arith, b.counted, b.bounded, e);
  }
  Step-IsBounded _ _ b (reply s n e) = record {
    counted = omega (arith, b.counted, e);
    bounded = omega (arith, b.counted, b.bounded, e);
  }
  Step-IsBounded _ _ b (refuse s n e q) = record {
    counted = omega (arith, b.counted, e);
    bounded = omega (arith, b.counted, b.bounded, e);
  }
  Step-IsBounded _ _ b (enter s n e q) = record {
    counted = omega (arith, b.counted, e);
    bounded = omega (arith, b.counted, b.bounded, e);
  }
  Step-IsBounded _ _ b (leave_quit s n e q) = record {
    counted = omega (arith, b.counted, e);
    bounded = omega (arith, b.counted, b.bounded, e);
  }
  Step-IsBounded _ _ b (read s n e q) = record {
    counted = omega (arith, b.counted, e);
    bounded = omega (arith, b.counted, b.bounded, e);
  }
  Step-IsBounded _ _ b (interrupt s n e q) = record {
    counted = omega (arith, b.counted, e);
    bounded = omega (arith, b.counted, b.bounded, e);
  }
  Step-IsBounded _ _ b (finish s n e) = record { counted = b.counted; bounded = b.bounded }
  Step-IsBounded _ _ b (close_quit s q) = record { counted = b.counted; bounded = b.bounded }
  Step-IsBounded _ _ b (close_listener s q c) = record { counted = b.counted; bounded = b.bounded }

  Steps-IsBounded : (s t : Life) (n : ℕ) → IsBounded max s → Steps max s t n → IsBounded max t
  Steps-IsBounded _ _ _ b (no_step s) = b
  Steps-IsBounded _ _ _ b (next s t u n one more) =
      Steps-IsBounded t u n (Step-IsBounded s t b one) more

  -- Whatever the goroutines do and in which order, a server that was just made never counts more
  -- connections than `int32` of the configured number (none where that is negative), and counts
  -- those that were started and have not begun to leave.
  pub Steps-bounded :
      (s : Life) (n : ℕ)
      → Steps max new_life s n
      → (s.active_conn ≡ s.starting + s.joined + s.serving + s.reading + s.handling)
        × (s.active_conn ≤ pos_part (int32 max))
  Steps-bounded s n run =
      let b = Steps-IsBounded new_life s n (record { counted = refl; bounded = omega arith }) run in
      (b.counted, omega (arith, b.bounded))
