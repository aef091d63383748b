-- ===== src/ClientV1/Uploads/Reading.antt =====
-- What an upload's worker reads and stores: src/qt/client/internal/local_client/UploaderImpl.cpp.
use mathlib.Core.List.{append-nil}
use storage_framework.Base.{
  ◌∙◌, ℕ, ◌+◌, true, false, ◌≡◌, refl, Option, none, some, List, [], ◌∷◌, ◌++◌, length, is_empty,
  length-append, arith, if_rule,
}
use storage_framework.Base.Text.{Text}
use storage_framework.Base.Int.{ℤ, pos, negsuc, eqb_ℤ}
use storage_framework.ClientV1.Future.{Report, exception, result, finished}
use storage_framework.ClientV1.Uploads.Contents.{
  IsHost, has_result, IsRight, Ends, IsStored, finish_in-Ends,
}
use storage_framework.ClientV1.Uploads.{
  Host, W, error, on_bytes_ready, do_finish, finish_in, quit_if_finished, handle_error, fail_with,
  close_output, wrote,
}

module _ (h : Host) (to_string : ℤ → Text) (law : IsHost h) where
  -- Nothing is lost while the worker is in progress, and a result is right.
  abbrev pub IsFaithful : W h to_string → Type 0
  IsFaithful w =
      IsRight h to_string law w × (w.quit ≡ false → (w.reports ≡ []) × IsStored h to_string law w)

  abbrev pub Keeps : Option (W h to_string) → Type 0
  Keeps none = Unit
  Keeps (some w) = IsFaithful w

  -- A slot that has failed has reported no result.
  abbrev pub Reads : Option (W h to_string) → Type 0
  Reads none = Unit
  Reads (some w) =
      IsFaithful w × (w.quit ≡ true → (has_result w.reports ≡ false) × (w.state ≡ error))

  pub do_finish-Keeps :
      (w : W h to_string)
      → w.reports ≡ []
      → IsStored h to_string law w
      → Keeps (do_finish h to_string w)
  unfolding do_finish quit_if_finished
  do_finish-Keeps w e t =
      by_end (finish_in h to_string w.state w) (finish_in-Ends h to_string law w.state w e t)
    where
      by_end :
          (m : Option (W h to_string))
          → Ends h to_string law m
          → Keeps (quit_if_finished h to_string m)
      by_end none n = tt
      by_end (some v) n = rw n.0 (n.1, λ q. absurd (cc))

  -- Nothing was reported.
  abbrev IsQuiet : Option (W h to_string) → Type 0
  IsQuiet none = Unit
  IsQuiet (some w) = w.reports ≡ []

  fail_with-Reads :
      (msg : Text) (code : ℤ) (m : Option (W h to_string))
      → IsQuiet m
      → Reads (fail_with h to_string msg code m)
  unfolding fail_with do_finish finish_in quit_if_finished
  fail_with-Reads msg code none e = tt
  fail_with-Reads msg code (some w) e =
      rw e (((λ r. absurd (cc)), (λ q. absurd (cc))), (λ q. (refl, refl)))

  close_output-IsQuiet : (w : W h to_string) → w.reports ≡ [] → IsQuiet (close_output h to_string w)
  unfolding close_output
  close_output-IsQuiet w e = ground arith

  pub handle_error-Reads :
      (msg : Text) (code : ℤ) (w : W h to_string)
      → w.reports ≡ []
      → Reads (handle_error h to_string msg code w)
  unfolding handle_error
  handle_error-Reads msg code w e =
      fail_with-Reads msg code (close_output h to_string w) (close_output-IsQuiet w e)

  nil_of_empty : (xs : List ℕ) → is_empty xs ≡ true → xs ≡ []
  nil_of_empty [] k = refl
  nil_of_empty (x ∷ xs) k = absurd (cc)

  pub has_result-append :
      (rs ss : List (Report Text))
      → has_result rs ≡ false
      → has_result ss ≡ false
      → has_result (rs ++ ss) ≡ false
  has_result-append [] ss a b = b
  has_result-append (result p ∷ rs) ss a b = absurd (cc)
  has_result-append (exception e ∷ rs) ss a b = has_result-append rs ss a b
  has_result-append (finished ∷ rs) ss a b = has_result-append rs ss a b

  eq_of_eqb : (r : ℤ) (n : ℕ) → eqb_ℤ r (pos n) ≡ true → r ≡ pos n
  eq_of_eqb r n k = ground arith

  wrote-Reads :
      (r : ℤ) (n : ℕ) (w : W h to_string)
      → w.quit ≡ false
      → w.reports ≡ []
      → (r ≡ pos n → IsStored h to_string law w)
      → Reads (wrote h to_string r n w)
  unfolding wrote
  wrote-Reads r n w q e t =
      if_rule Reads (eqb_ℤ r (negsuc 0)) _ _ (λ _. handle_error-Reads _ _ w e)
        (λ _.
          if_rule Reads (eqb_ℤ r (pos n)) _ _
            (λ k.
              (((λ x. absurd (ground arith)), (λ _. (e, t (eq_of_eqb r n k)))), (λ x. absurd (cc))))
            (λ _. handle_error-Reads _ _ w e))

  read_nothing :
      (s : h.State)
      → is_empty (h.read_available s).0 ≡ true
      → h.delivered (h.read_available s).1 ≡ h.delivered s
  read_nothing s k = law.read s ∙ (rw (nil_of_empty _ k) (append-nil (h.delivered s)))

  pub on_bytes_ready-Reads :
      (w : W h to_string)
      → w.quit ≡ false
      → w.reports ≡ []
      → IsStored h to_string law w
      → Reads (on_bytes_ready h to_string w)
  unfolding on_bytes_ready
  on_bytes_ready-Reads w q e t =
      let r = h.read_available w.host in
      let o = h.write r.0 r.1 in
      if_rule Reads (is_empty r.0) _ _
        (λ k. (
          (
            (λ x. absurd (ground arith)),
            (λ _. (e, ground (arith, t, read_nothing w.host k, law.read_keeps w.host))),
          ),
          (λ x. absurd (cc)),
        ))
        (λ _.
          wrote-Reads o.0 (length r.0)
            (record w { host = o.1; bytes_read = w.bytes_read + length r.0 }) q e
            (λ k. ground (
              arith,
              t,
              law.read w.host,
              law.read_keeps w.host,
              law.write r.0 r.1 k,
              law.write_keeps r.0 r.1,
              length-append (h.delivered w.host) r.0,
            )))
