-- ===== src/Txn/Finish.antt =====
-- `TxnState::finish_commit` of src/connection/txn.rs removes the applied work and nothing else.
use adbc_spanner.Common.{List, [], ◌∷◌, ◌++◌, some, ◌≡◌, refl, sym, ap, ap₂, ◌∙◌, length}
use adbc_spanner.Txn.{
  ManualTxn, TxnState, drain_front, drain_applied, reset_drained, drained, reset_if_empty,
  has_pending_work, finish_commit,
}
use adbc_spanner.Txn.Growth.{statements_of, mutations_of, Extends, HasWork}

drain_front-append : {A : Type 0} (xs ys : List A) → drain_front (length xs) (xs ++ ys) ≡ some ys
drain_front-append [] ys = refl
drain_front-append (x ∷ xs) ys = drain_front-append xs ys

drain_front_self : {A : Type 0} (xs : List A) → drain_front (length xs) xs ≡ some []
drain_front_self [] = refl
drain_front_self (x ∷ xs) = drain_front_self xs

module _ {S M R : Type 0} where
  -- What is left of `t` once `work` has been applied: the rest of its work, in order, and no kind
  -- where that is nothing.
  pub record Leaves (t work t' : ManualTxn S M R) : Type 0 where
    pub statements : statements_of t ≡ statements_of work ++ statements_of t'
    pub mutations : mutations_of t ≡ mutations_of work ++ mutations_of t'
    pub has_work : HasWork t'

  pub record Finishes (st : TxnState S M R) (work : ManualTxn S M R) : Type 0 where
    pub after : TxnState S M R
    pub runs : finish_commit st work ≡ some after
    pub mode : after.autocommit ≡ st.autocommit
    pub leaves : Leaves st.txn work after.txn

  reset_dml :
      (st : TxnState S M R) (a : List S) (b : List M)
      → let st' = reset_if_empty st (ManualTxn.dml a b) in
        (st'.autocommit ≡ st.autocommit)
        × (statements_of st'.txn ≡ a)
        × (mutations_of st'.txn ≡ b)
        × HasWork st'.txn
  unfolding has_pending_work
  reset_dml st [] [] = (refl, refl, refl, tt)
  reset_dml st [] (y ∷ b) = (refl, refl, refl, refl)
  reset_dml st (x ∷ a) b = (refl, refl, refl, refl)

  reset_any :
      (st : TxnState S M R) (t : ManualTxn S M R)
      → HasWork t
      → let st' = reset_if_empty st t in
        (st'.autocommit ≡ st.autocommit)
        × (statements_of st'.txn ≡ statements_of t)
        × (mutations_of st'.txn ≡ mutations_of t)
        × HasWork st'.txn
  unfolding has_pending_work
  reset_any st ManualTxn.unset w = (refl, refl, refl, tt)
  reset_any st (ManualTxn.read r) w = (refl, refl, refl, tt)
  reset_any st (ManualTxn.dml a b) w = reset_dml st a b

  finish_dml :
      (st : TxnState S M R) (a a' : List S) (b b' : List M)
      → st.txn ≡ ManualTxn.dml (a ++ a') (b ++ b')
      → Finishes st (ManualTxn.dml a b)
  unfolding finish_commit
  finish_dml st a a' b b' e =
      let r = reset_dml st a' b' in
      record {
        after = reset_if_empty st (ManualTxn.dml a' b');
        runs =
            ap (λ t. reset_drained st (drain_applied t (ManualTxn.dml a b))) e
            ∙ ap (reset_drained st)
                (ap₂ drained (drain_front-append a a') (drain_front-append b b'));
        mode = r.0;
        leaves = record {
          statements = ap statements_of e ∙ ap (λ l. a ++ l) (sym r.1);
          mutations = ap mutations_of e ∙ ap (λ l. b ++ l) (sym r.2);
          has_work = r.3;
        };
      }

  -- Applied work that is no DML drains nothing.
  finish_undrained :
      (st : TxnState S M R) (work t : ManualTxn S M R)
      → st.txn ≡ t
      → statements_of work ≡ []
      → mutations_of work ≡ []
      → drain_applied t work ≡ some t
      → HasWork t
      → Finishes st work
  unfolding finish_commit
  finish_undrained st work t e s m d w =
      let r = reset_any st t w in
      record {
        after = reset_if_empty st t;
        runs = ap (λ u. reset_drained st (drain_applied u work)) e ∙ ap (reset_drained st) d;
        mode = r.0;
        leaves = record {
          statements =
              ap statements_of e
              ∙ sym r.1
              ∙ ap (λ l. l ++ statements_of (reset_if_empty st t).txn) (sym s);
          mutations =
              ap mutations_of e
              ∙ sym r.2
              ∙ ap (λ l. l ++ mutations_of (reset_if_empty st t).txn) (sym m);
          has_work = r.3;
        };
      }

  undrained-unset : (t : ManualTxn S M R) → drain_applied t ManualTxn.unset ≡ some t
  undrained-unset ManualTxn.unset = refl
  undrained-unset t = refl

  undrained-read : (t : ManualTxn S M R) (r : R) → drain_applied t (ManualTxn.read r) ≡ some t
  undrained-read ManualTxn.unset r = refl
  undrained-read t r = refl

  -- A transaction that extends the applied work never makes a drain panic.
  pub Extends-Finishes :
      (st : TxnState S M R) (work : ManualTxn S M R)
      → Extends work st.txn
      → HasWork st.txn
      → Finishes st work
  Extends-Finishes st ManualTxn.unset h w =
      finish_undrained st ManualTxn.unset st.txn refl refl refl (undrained-unset st.txn) w
  Extends-Finishes st (ManualTxn.read r) h w =
      finish_undrained st (ManualTxn.read r) st.txn refl refl refl (undrained-read st.txn r) w
  Extends-Finishes st (ManualTxn.dml a b) (a', b', e) w = finish_dml st a a' b b' e

  -- With nothing added meanwhile, finishing a commit ends the transaction.
  pub finish_commit_self :
      (st : TxnState S M R) → finish_commit st st.txn ≡ some (record st { txn = ManualTxn.unset })
  unfolding finish_commit has_pending_work
  finish_commit_self st = case st.txn
    where
      case :
          (t : ManualTxn S M R)
          → reset_drained st (drain_applied t t) ≡ some (record st { txn = ManualTxn.unset })
      case ManualTxn.unset = refl
      case (ManualTxn.read r) = refl
      case (ManualTxn.dml a b) =
          ap (reset_drained st) (ap₂ drained (drain_front_self a) (drain_front_self b))
