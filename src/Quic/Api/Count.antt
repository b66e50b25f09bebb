-- ===== src/Quic/Api/Count.antt =====
-- The library is open exactly while it is in use.
use secure_tunnel_cpp.Prelude.{
  ℕ, ◌+◌, ◌-◌, ◌≡◌, refl, sym, ap, ◌∙◌, Bool, true, false, List, [], ◌∷◌, arith, ltb, if◌then◌else◌,
}
use secure_tunnel_cpp.Quic.Api.{MsQuic, MsQuicApi, acquire, release}

-- A record of the calls in the library's state: how often `MsQuicOpen2` has succeeded and
-- `MsQuicClose` has been called.
pub record IsLogged (q : MsQuic) (opens closes : q.State → ℕ) : Type 0 where
  pub opened : (l : q.State) → (q.open2 l).1 ≡ true → opens (q.open2 l).0 ≡ opens l + 1
  pub not_opened : (l : q.State) → (q.open2 l).1 ≡ false → opens (q.open2 l).0 ≡ opens l
  pub open_closes : (l : q.State) → closes (q.open2 l).0 ≡ closes l
  pub closed : (l : q.State) → closes (q.close l) ≡ closes l + 1
  pub close_opens : (l : q.State) → opens (q.close l) ≡ opens l

module _ (q : MsQuic) where
  -- A run of calls, `true` for `acquire`.
  pub run : MsQuicApi q → List Bool → MsQuicApi q
  run g [] = g
  run g (true ∷ cs) = run (acquire q g).0 cs
  run g (false ∷ cs) = run (release q g) cs

  abbrev pub IsCounted : MsQuicApi q → Type 0
  IsCounted g = ltb 0 g.ref_count ≡ g.api

  -- The two globals at a program's start.
  abbrev pub unused : q.State → MsQuicApi q
  unused l = record { library = l; api = false; ref_count = 0 }

  acquire-count :
      (g : MsQuicApi q)
      → (acquire q g).0.ref_count ≡ (if (acquire q g).1 then g.ref_count + 1 else g.ref_count)
  unfolding acquire
  acquire-count g = ground arith

  release-count : (g : MsQuicApi q) → (release q g).ref_count ≡ g.ref_count - 1
  unfolding release
  release-count g = ground arith

  -- The users after a run that starts with `n`: one more for each `acquire` that succeeds, one fewer
  -- for each `release` while there are any.
  pub users : MsQuicApi q → List Bool → ℕ → ℕ
  users g [] n = n
  users g (true ∷ cs) n = users (acquire q g).0 cs (if (acquire q g).1 then n + 1 else n)
  users g (false ∷ cs) n = users (release q g) cs (n - 1)

  ref_count-run : (g : MsQuicApi q) (cs : List Bool) → (run g cs).ref_count ≡ users g cs g.ref_count
  unfolding run users
  ref_count-run g [] = refl
  ref_count-run g (true ∷ cs) =
      ref_count-run (acquire q g).0 cs ∙ ap (users (acquire q g).0 cs) (acquire-count g)
  ref_count-run g (false ∷ cs) =
      ref_count-run (release q g) cs ∙ ap (users (release q g) cs) (release-count g)

  module _ (opens closes : q.State → ℕ) (logged : IsLogged q opens closes) where
    -- The library is open once more than it was, while it is in use.
    abbrev Holds : ℕ → ℕ → MsQuicApi q → Type 0
    Holds o c g =
        IsCounted g × (opens g.library + c ≡ closes g.library + o + (if g.api then 1 else 0))

    acquire-Holds : (o c : ℕ) (g : MsQuicApi q) → Holds o c g → Holds o c (acquire q g).0
    unfolding acquire
    acquire-Holds o c g h =
        ground (
          arith,
          logged.opened g.library,
          logged.not_opened g.library,
          logged.open_closes g.library,
        )

    release-Holds : (o c : ℕ) (g : MsQuicApi q) → Holds o c g → Holds o c (release q g)
    unfolding release
    release-Holds o c g h = ground (arith, logged.closed g.library, logged.close_opens g.library)

    run-Holds : (o c : ℕ) (g : MsQuicApi q) (cs : List Bool) → Holds o c g → Holds o c (run g cs)
    unfolding run
    run-Holds o c g [] h = h
    run-Holds o c g (true ∷ cs) h = run-Holds o c (acquire q g).0 cs (acquire-Holds o c g h)
    run-Holds o c g (false ∷ cs) h = run-Holds o c (release q g) cs (release-Holds o c g h)

    -- The count is that of the users, and the library is open while there are any: from a program's
    -- start on, after any calls of `acquire` and `release`, failed ones among them, the count is the
    -- number of users, the table is there exactly if that is not 0, and `MsQuicOpen2` has succeeded
    -- exactly once more often than `MsQuicClose` has been called while there are users, and equally
    -- often while there are none.
    pub run-IsCounted :
        (l : q.State) (cs : List Bool)
        → ((run (unused l) cs).ref_count ≡ users (unused l) cs 0)
          × (ltb 0 (users (unused l) cs 0) ≡ (run (unused l) cs).api)
          × (opens (run (unused l) cs).library + closes l
              ≡ closes (run (unused l) cs).library
                + opens l
                + (if ltb 0 (users (unused l) cs 0) then 1 else 0))
    run-IsCounted l cs =
        let at = ref_count-run (unused l) cs in
        let (counted, balance) = run-Holds (opens l) (closes l) (unused l) cs (refl, omega arith) in
        let used : ltb 0 (users (unused l) cs 0) ≡ (run (unused l) cs).api =
          ap (ltb 0) (sym at) ∙ counted in
        (
          at,
          used,
          balance
              ∙ ap
                  (λ (u : Bool).
                    closes (run (unused l) cs).library + opens l + (if u then 1 else 0))
                  (sym used),
        )
