-- ===== src/Txn/Growth.antt =====
-- Growth of a manual transaction (src/connection/txn.rs): work added behind what it held.
use adbc_spanner.Common.{
  true, List, [], ◌∷◌, ◌++◌, ◌≡◌, refl, ◌∙◌, sym, ap, append-nil, append_assoc, not, ◌||◌, arith,
  is_nil,
}
use adbc_spanner.Txn.{ManualTxn}

HasWork-dml :
    {S M : Type 0} (ss xs : List S) (ms ys : List M)
    → (not (is_nil ss) || not (is_nil ms)) ≡ true
    → (not (is_nil (ss ++ xs)) || not (is_nil (ms ++ ys))) ≡ true
HasWork-dml [] xs [] ys h = cc
HasWork-dml [] [] (m ∷ ms) ys h = refl
HasWork-dml [] (x ∷ xs) (m ∷ ms) ys h = refl
HasWork-dml (s ∷ ss) xs ms ys h = refl

module _ {S M R : Type 0} where
  abbrev pub statements_of : ManualTxn S M R → List S
  statements_of (ManualTxn.dml ss ms) = ss
  statements_of _ = []

  abbrev pub mutations_of : ManualTxn S M R → List M
  mutations_of (ManualTxn.dml ss ms) = ms
  mutations_of _ = []

  -- `w` was copied from the transaction earlier, and work was only added since.
  abbrev pub Extends : ManualTxn S M R → ManualTxn S M R → Type 0
  Extends ManualTxn.unset t = Unit {0}
  Extends (ManualTxn.read r) t = t ≡ ManualTxn.read r
  Extends (ManualTxn.dml ss ms) t =
      (ss' : List S) × (ms' : List M) × (t ≡ ManualTxn.dml (ss ++ ss') (ms ++ ms'))

  -- A transaction of the DML kind holds some work.
  abbrev pub HasWork : ManualTxn S M R → Type 0
  HasWork (ManualTxn.dml ss ms) = (not (is_nil ss) || not (is_nil ms)) ≡ true
  HasWork _ = Unit {0}

  -- `xs` and `ms` were added behind what the transaction held.
  pub record Grew (t t' : ManualTxn S M R) (xs : List S) (ms : List M) : Type 0 where
    pub statements : statements_of t' ≡ statements_of t ++ xs
    pub mutations : mutations_of t' ≡ mutations_of t ++ ms
    pub extends : (w : ManualTxn S M R) → Extends w t → Extends w t'
    pub has_work : HasWork t → HasWork t'

  Extends-dml :
      (w : ManualTxn S M R) (ss xs : List S) (ms ys : List M)
      → Extends w (ManualTxn.dml ss ms)
      → Extends w (ManualTxn.dml (ss ++ xs) (ms ++ ys))
  Extends-dml ManualTxn.unset ss xs ms ys h = tt
  Extends-dml (ManualTxn.read r) ss xs ms ys h = cc
  Extends-dml (ManualTxn.dml a b) ss xs ms ys (a', b', e) =
      (a' ++ xs, b' ++ ys, ground (arith, append_assoc a a' xs, append_assoc b b' ys))

  pub Extends-unset : (w t : ManualTxn S M R) → Extends w ManualTxn.unset → Extends w t
  Extends-unset ManualTxn.unset t h = tt
  Extends-unset (ManualTxn.read r) t h = cc
  Extends-unset (ManualTxn.dml a b) t (a', b', e) = cc

  pub Grew-dml :
      (ss xs : List S) (ms ys : List M)
      → Grew (ManualTxn.dml ss ms) (ManualTxn.dml (ss ++ xs) (ms ++ ys)) xs ys
  Grew-dml ss xs ms ys = record {
    statements = refl;
    mutations = refl;
    extends = λ w h. Extends-dml w ss xs ms ys h;
    has_work = λ h. HasWork-dml ss xs ms ys h;
  }

  pub Grew-refl : (t : ManualTxn S M R) → Grew t t [] []
  Grew-refl t = record {
    statements = sym (append-nil (statements_of t));
    mutations = sym (append-nil (mutations_of t));
    extends = λ w h. h;
    has_work = λ h. h;
  }

  pub Grew-trans :
      {t u v : ManualTxn S M R} (xs xs' : List S) (ms ms' : List M)
      → Grew t u xs ms
      → Grew u v xs' ms'
      → Grew t v (xs ++ xs') (ms ++ ms')
  Grew-trans {t} {u} {v} xs xs' ms ms' g h = record {
    statements =
        h.statements ∙ ap (λ l. l ++ xs') g.statements ∙ append_assoc (statements_of t) xs xs';
    mutations = h.mutations ∙ ap (λ l. l ++ ms') g.mutations ∙ append_assoc (mutations_of t) ms ms';
    extends = λ w e. h.extends w (g.extends w e);
    has_work = λ e. h.has_work (g.has_work e);
  }
