-- ===== src/Server/Accept.antt =====
-- The accept loop, the life of a connection and the shutdown of internal/server/server.go, as steps
-- that goroutines take in any order: `Start`, `handleConnection` and `ShutdownWithTimeout`.
pub mod Bound
pub mod Shutdown
use pendem.Base.{
  ℕ, zero, suc, ◌+◌, ◌-◌, ◌%◌, ◌^◌, ◌≤◌, ◌<◌, Bool, true, false, ltb, if◌then◌else◌, ◌≡◌,
}
use pendem.Base.Int.{ℤ, pos, negsuc, ltb_ℤ}

-- Where the loop of `Start` is: before its first `select`, in `Accept`, past the second `select`,
-- with a place for the connection, or done.
pub data Loop : Type 0 where
  top : Loop
  accepting : Loop
  checked : Loop
  admitted : Loop
  stopped : Loop

-- `quit` says that the channel is closed. The connections that are counted are started, and have not
-- yet called `wg.Add`; have joined, before the first test of `quit`; are served, at the top of the loop;
-- are read from, in the `select` behind that; or have their command handled. Those that leave have
-- only `wg.Done` to call.
pub record Life : Type 0 where
  pub loop : Loop
  pub quit : Bool
  pub closed : Bool
  pub active_conn : ℕ
  pub starting : ℕ
  pub joined : ℕ
  pub serving : ℕ
  pub reading : ℕ
  pub handling : ℕ
  pub leaving : ℕ

-- int32(n)
unfoldable pub int32 : ℤ → ℤ
int32 (pos n) = let u = n % 2 ^ 32 in if ltb u (2 ^ 31) then pos u else negsuc (2 ^ 32 - 1 - u)
int32 (negsuc n) = let u = n % 2 ^ 32 in if ltb u (2 ^ 31) then negsuc u else pos (2 ^ 32 - 1 - u)

-- `currentConn >= int32(s.config.MaxConnections)`, negated; a counter below 2^31 is its own value.
unfoldable pub has_place : ℤ → ℕ → Bool
unfolding int32
has_place max_connections active = ltb_ℤ (pos active) (int32 max_connections)

abbrev pub new_life : Life
new_life = record {
  loop = top;
  quit = false;
  closed = false;
  active_conn = 0;
  starting = 0;
  joined = 0;
  serving = 0;
  reading = 0;
  handling = 0;
  leaving = 0;
}

module _ (max_connections : ℤ) where
  pub data Step : Life → Life → Type 0 where
    -- The loop.
    see_quit : (s : Life) → s.loop ≡ top → s.quit ≡ true → Step s (record s { loop = stopped })
    wait : (s : Life) → s.loop ≡ top → s.quit ≡ false → Step s (record s { loop = accepting })
    accept_closed :
        (s : Life) → s.loop ≡ accepting → s.closed ≡ true → Step s (record s { loop = stopped })
    accept_error :
        (s : Life) → s.loop ≡ accepting → s.closed ≡ false → Step s (record s { loop = top })
    refuse_quit : (s : Life) → s.loop ≡ accepting → s.quit ≡ true → Step s (record s { loop = top })
    accept : (s : Life) → s.loop ≡ accepting → s.quit ≡ false → Step s (record s { loop = checked })
    refuse_full :
        (s : Life)
        → s.loop ≡ checked
        → has_place max_connections s.active_conn ≡ false
        → Step s (record s { loop = top })
    admit :
        (s : Life)
        → s.loop ≡ checked
        → has_place max_connections s.active_conn ≡ true
        → Step s (record s { loop = admitted })
    launch :
        (s : Life)
        → s.loop ≡ admitted
        → Step s
            (record s { loop = top; active_conn = suc s.active_conn; starting = suc s.starting })
    -- `handleConnection`: `wg.Add`, and the first test of `quit`.
    join :
        (s : Life) (n : ℕ)
        → s.starting ≡ suc n
        → Step s (record s { starting = n; joined = suc s.joined })
    refuse :
        (s : Life) (n : ℕ)
        → s.joined ≡ suc n
        → s.quit ≡ true
        → Step s (record s { joined = n; active_conn = s.active_conn - 1; leaving = suc s.leaving })
    enter :
        (s : Life) (n : ℕ)
        → s.joined ≡ suc n
        → s.quit ≡ false
        → Step s (record s { joined = n; serving = suc s.serving })
    -- The top of the loop: the idle monitor has closed the connection, or `quit` is closed, or a read
    -- is started.
    leave_closed :
        (s : Life) (n : ℕ)
        → s.serving ≡ suc n
        → Step s
            (record s { serving = n; active_conn = s.active_conn - 1; leaving = suc s.leaving })
    leave_quit :
        (s : Life) (n : ℕ)
        → s.serving ≡ suc n
        → s.quit ≡ true
        → Step s
            (record s { serving = n; active_conn = s.active_conn - 1; leaving = suc s.leaving })
    read :
        (s : Life) (n : ℕ)
        → s.serving ≡ suc n
        → s.quit ≡ false
        → Step s (record s { serving = n; reading = suc s.reading })
    -- The `select`: the read ends with an error or a value, or the goroutine behind `quit` has closed
    -- the connection and `shutdown`.
    fail_read :
        (s : Life) (n : ℕ)
        → s.reading ≡ suc n
        → Step s
            (record s { reading = n; active_conn = s.active_conn - 1; leaving = suc s.leaving })
    receive :
        (s : Life) (n : ℕ)
        → s.reading ≡ suc n
        → Step s (record s { reading = n; handling = suc s.handling })
    interrupt :
        (s : Life) (n : ℕ)
        → s.reading ≡ suc n
        → s.quit ≡ true
        → Step s
            (record s { reading = n; active_conn = s.active_conn - 1; leaving = suc s.leaving })
    -- The command is answered.
    reply :
        (s : Life) (n : ℕ)
        → s.handling ≡ suc n
        → Step s (record s { handling = n; serving = suc s.serving })
    finish : (s : Life) (n : ℕ) → s.leaving ≡ suc n → Step s (record s { leaving = n })
    -- `ShutdownWithTimeout`: the channel, then the listener.
    close_quit : (s : Life) → s.quit ≡ false → Step s (record s { quit = true })
    close_listener :
        (s : Life) → s.quit ≡ true → s.closed ≡ false → Step s (record s { closed = true })

  -- Steps, one after the other.
  pub data Steps : Life → Life → ℕ → Type 0 where
    no_step : (s : Life) → Steps s s 0
    next : (s t u : Life) (n : ℕ) → Step s t → Steps t u n → Steps s u (suc n)

  -- The steps that wait for no client and for no timer.
  unfoldable pub is_own : {s t : Life} → Step s t → Bool
  is_own (accept_error s e c) = false
  is_own (refuse_quit s e q) = false
  is_own (accept s e q) = false
  is_own (leave_closed s n e) = false
  is_own (fail_read s n e) = false
  is_own (receive s n e) = false
  is_own _ = true

  -- Such steps, one after the other.
  pub data OwnSteps : Life → Life → ℕ → Type 0 where
    own_none : (s : Life) → OwnSteps s s 0
    own_next :
        (s t u : Life) (n : ℕ) (step : Step s t)
        → is_own step ≡ true
        → OwnSteps t u n
        → OwnSteps s u (suc n)
