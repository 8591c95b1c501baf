-- ===== src/Ingest/Bisect/Accounting.antt =====
-- What `write_mutation_range` of src/statement/ingest.rs has written when it returns, and what it says.
use adbc_spanner.Common.{
  ℕ, zero, suc, ◌+◌, ◌-◌, ◌≤◌, ◌<◌, Bool, true, false, List, [], ◌∷◌, ◌++◌, ◌≡◌, refl, sym, ap, ◌∙◌,
  subst, append-nil, append_assoc, length, length-append, arith, ltb, Result, ok, err, Status, ◌⊎◌,
  inl, inr, if◌then◌else◌, invalid_arguments, invalid_state, invalid_data, not_found,
  not_implemented, already_exists, internal, cancelled, timeout, io, unauthenticated, unauthorized,
  unknown, integrity, okay,
}
use adbc_spanner.Ingest.Bisect.Transport.{may_land, logged, remember}
use adbc_spanner.Ingest.Bisect.{
  Reply, accepted, too_many, refused, Ranged, wrote, failed, out_of_fuel, midpoint, both, halves,
  conclude_range, submit, write_mutation_range, note_rows_already_committed,
}

module _ {V M : Type 0} (build : ℕ → ℕ → Result (List M)) (landed : V → List M → Bool)
    (write : V → List M → V × Reply) where
  -- The mutations of adjoining ranges, in order, from one index to another.
  pub data Pieces : ℕ → ℕ → List M → Type 0 where
    none_left : {s e : ℕ} → s ≡ e → Pieces s e []
    piece : {s e : ℕ} (ms : List M) → s ≤ e → build s e ≡ ok ms → Pieces s e ms
    join :
        {s m e : ℕ} {xs ys zs : List M}
        → Pieces s m xs
        → Pieces m e ys
        → zs ≡ xs ++ ys
        → Pieces s e zs

  -- What an error leaves applied behind the rows that its note counts: nothing, or, where the note says
  -- that the outcome is unknown, perhaps the mutations of the one range that failed.
  abbrev pub LeftOver : Status → Bool → ℕ → ℕ → List M → Type 0
  LeftOver st doubt k e extra =
      (extra ≡ [])
      ⊎ ((doubt ≡ true)
          × ((st ≡ timeout) ⊎ (st ≡ cancelled))
          × ((j : ℕ) × (k ≤ j) × (j ≤ e) × (build k j ≡ ok extra)))

  -- What was applied since the log was `log`, and the answer.
  abbrev pub Accounts : List M → ℕ → ℕ → ℕ → (V × List M) × Ranged → Type 0
  Accounts log s e prior ((v, log'), wrote n) =
      (ms : List M) × Pieces s e ms × (log' ≡ log ++ ms) × (n ≡ length ms)
  Accounts log s e prior ((v, log'), failed st n doubt) =
      (k : ℕ) × (ms : List M) × (extra : List M) × Pieces s k ms
      × (k ≤ e)
      × (log' ≡ log ++ (ms ++ extra))
      × (n ≡ prior + length ms)
      × LeftOver st doubt k e extra
  Accounts log s e prior (w, out_of_fuel) = ⊥

  both-Accounts :
      (log log' xs : List M) (s m e prior : ℕ) (p : (V × List M) × Ranged)
      → Pieces s m xs
      → log' ≡ log ++ xs
      → Accounts log' m e (prior + length xs) p
      → Accounts log s e prior (both (length xs) p)
  both-Accounts log log' xs s m e prior ((v, l), wrote n) a h (ys, b, h', c) = (
    xs ++ ys,
    join a b refl,
    h' ∙ ap (λ l. l ++ ys) h ∙ append_assoc log xs ys,
    ground (arith, c, length-append xs ys),
  )
  both-Accounts log log' xs s m e prior ((v, l), failed st n u) a h (k, ys, extra, b, q, h', c, x) =
      (
        k,
        xs ++ ys,
        extra,
        join a b refl,
        q,
        h'
            ∙ ap (λ l. l ++ (ys ++ extra)) h
            ∙ append_assoc log xs (ys ++ extra)
            ∙ ap (λ l. log ++ l) (sym (append_assoc xs ys extra)),
        ground (arith, c, length-append xs ys),
        x,
      )
  both-Accounts log log' xs s m e prior (w, out_of_fuel) a h b = b

  widen :
      (st : Status) (u : Bool) (k m e : ℕ) (extra : List M)
      → m ≤ e
      → LeftOver st u k m extra
      → LeftOver st u k e extra
  widen st u k m e extra o (inl x) = inl x
  widen st u k m e extra o (inr (x, y, (j, p, q, b))) = inr (x, y, (j, p, omega arith, b))

  halves-Accounts :
      (log : List M) (s m e prior : ℕ) (p : (V × List M) × Ranged)
      (right : V × List M → ℕ → (V × List M) × Ranged)
      → m ≤ e
      → Accounts log s m prior p
      → ((v : V) (log' : List M) (n : ℕ) → Accounts log' m e (prior + n) (right (v, log') n))
      → Accounts log s e prior (halves p right)
  halves-Accounts log s m e prior ((v, l), wrote n) right o (xs, a, h, c) r =
      subst (λ i. Accounts log s e prior (both i (right (v, l) i))) (sym c)
        (both-Accounts log l xs s m e prior (right (v, l) (length xs)) a h (r v l (length xs)))
  halves-Accounts log s m e prior ((v, l), failed st n u) right o (k, xs, extra, a, q, h, c, x) r =
      (k, xs, extra, a, omega arith, h, c, widen st u k m e extra o x)
  halves-Accounts log s m e prior (w, out_of_fuel) right o a r = a

  nothing_written :
      (v : V) (log : List M) (s e prior : ℕ) (st : Status)
      → s ≤ e
      → Accounts log s e prior ((v, log), note_rows_already_committed st prior)
  nothing_written v log s e prior st o =
      (s, [], [], none_left refl, o, sym (append-nil log), omega arith, inl refl)

  -- Of the write of a whole range that Spanner did not accept.
  refused-Accounts :
      (v : V) (log ms : List M) (s e prior : ℕ) (st : Status) (there : Bool)
      → s ≤ e
      → build s e ≡ ok ms
      → Accounts log s e prior
          ((v, if may_land st there then log ++ ms else log), note_rows_already_committed st prior)
  refused-Accounts v log ms s e prior cancelled true o h = (
    s,
    [],
    ms,
    none_left refl,
    o,
    refl,
    omega arith,
    inr (refl, inr refl, (e, o, omega arith, h)),
  )
  refused-Accounts v log ms s e prior timeout true o h = (
    s,
    [],
    ms,
    none_left refl,
    o,
    refl,
    omega arith,
    inr (refl, inl refl, (e, o, omega arith, h)),
  )
  refused-Accounts v log ms s e prior cancelled false o h =
      nothing_written v log s e prior cancelled o
  refused-Accounts v log ms s e prior timeout false o h = nothing_written v log s e prior timeout o
  refused-Accounts v log ms s e prior invalid_arguments there o h =
      nothing_written v log s e prior invalid_arguments o
  refused-Accounts v log ms s e prior invalid_state there o h =
      nothing_written v log s e prior invalid_state o
  refused-Accounts v log ms s e prior invalid_data there o h =
      nothing_written v log s e prior invalid_data o
  refused-Accounts v log ms s e prior not_found there o h =
      nothing_written v log s e prior not_found o
  refused-Accounts v log ms s e prior not_implemented there o h =
      nothing_written v log s e prior not_implemented o
  refused-Accounts v log ms s e prior already_exists there o h =
      nothing_written v log s e prior already_exists o
  refused-Accounts v log ms s e prior internal there o h =
      nothing_written v log s e prior internal o
  refused-Accounts v log ms s e prior io there o h = nothing_written v log s e prior io o
  refused-Accounts v log ms s e prior unauthenticated there o h =
      nothing_written v log s e prior unauthenticated o
  refused-Accounts v log ms s e prior unauthorized there o h =
      nothing_written v log s e prior unauthorized o
  refused-Accounts v log ms s e prior unknown there o h = nothing_written v log s e prior unknown o
  refused-Accounts v log ms s e prior integrity there o h =
      nothing_written v log s e prior integrity o
  refused-Accounts v log ms s e prior okay there o h = nothing_written v log s e prior okay o

  reply-Accounts :
      (log ms : List M) (s e prior : ℕ) (divisible : Bool)
      (retry : V × List M → (V × List M) × Ranged)
      → s ≤ e
      → build s e ≡ ok ms
      → (divisible ≡ true → (v : V) → Accounts log s e prior (retry (v, log)))
      → (there : Bool) (p : V × Reply)
      → Accounts log s e prior
          (conclude_range (length ms) divisible prior retry (remember log ms there p))
  reply-Accounts log ms s e prior divisible retry o h r there (v, accepted) =
      (ms, piece ms o h, refl, refl)
  reply-Accounts log ms s e prior true retry o h r there (v, too_many) = r refl v
  reply-Accounts log ms s e prior false retry o h r there (v, too_many) =
      nothing_written v log s e prior invalid_arguments o
  reply-Accounts log ms s e prior divisible retry o h r there (v, refused st) =
      refused-Accounts v log ms s e prior st there o h

  build-Accounts :
      (v : V) (log : List M) (s e prior : ℕ) (retry : V × List M → (V × List M) × Ranged)
      → s ≤ e
      → (ltb 1 (e - s) ≡ true → (v : V) → Accounts log s e prior (retry (v, log)))
      → (r : Result (List M)) → build s e ≡ r
      → Accounts log s e prior (elim r [
        | err x ↦ ((v, log), note_rows_already_committed x prior)
        | ok ms ↦
            conclude_range
              (length ms)
              (ltb 1 (e - s))
              prior
              retry
              (submit build (logged landed write) (v, log) ms)
      ])
  build-Accounts v log s e prior retry o r (err x) h = nothing_written v log s e prior x o
  build-Accounts v log s e prior retry o r (ok []) h =
      ([], piece [] o h, sym (append-nil log), refl)
  build-Accounts v log s e prior retry o r (ok (m ∷ ms)) h =
      reply-Accounts log (m ∷ ms) s e prior (ltb 1 (e - s)) retry o h r (landed v (m ∷ ms))
        (write v (m ∷ ms))

  -- With fuel for the length of the range, `write_mutation_range` returns. On success the mutations of
  -- adjoining ranges from `start` to `end` have been applied, in order, and the count is their number.
  -- On an error those from `start` to some index have, and its note counts them and the rows committed
  -- before; no more have, but where a write was cut off by a cancel or the timeout and landed all the
  -- same: then the note says that an outcome is unknown, and it is that of the one range behind them.
  pub write_mutation_range-Accounts :
      (fuel : ℕ) (v : V) (log : List M) (start end prior_total : ℕ)
      → start ≤ end
      → end - start < fuel
      → Accounts log start end prior_total
          (write_mutation_range build (logged landed write) fuel (v, log) start end prior_total)
  unfolding write_mutation_range
  write_mutation_range-Accounts zero v log s e prior o h = absurd (omega arith)
  write_mutation_range-Accounts (suc fuel) v log s e prior o h =
      build-Accounts v log s e prior
        (λ w'.
          halves (write_mutation_range build (logged landed write) fuel w' s (midpoint s e) prior)
            (λ w'' left.
              write_mutation_range build (logged landed write) fuel w'' (midpoint s e) e
                (prior + left)))
        o
        (λ t v'.
          halves-Accounts log s (midpoint s e) e prior
            (write_mutation_range build (logged landed write) fuel (v', log) s (midpoint s e) prior)
            (λ w'' left.
              write_mutation_range build (logged landed write) fuel w'' (midpoint s e) e
                (prior + left))
            (ground arith)
            (write_mutation_range-Accounts fuel v' log s (midpoint s e) prior (omega arith)
              (ground arith))
            (λ v'' log' n.
              write_mutation_range-Accounts fuel v'' log' (midpoint s e) e (prior + n) (omega arith)
                (ground arith)))
        (build s e) refl
