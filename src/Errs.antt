-- ===== src/Errs.antt =====
-- The package bitbucket.org/rawr/golib/errs, which is not in the repository: its functions, with
-- their documented behaviour. A nil error is `none`.
use goxz.Base.{Bool, true, false, ◌≡◌, List, Option, none, some, if◌then◌else◌}
use goxz.Go.{Err, elem_err, Fault, error, nil_error, stuck, Res, ok, fail}

pub record Errs : Type 0 where
  pub panic : Option Err → Res (Unit {0})
  pub assert : Bool → Option Err → Res (Unit {0})
  pub ignore : Option Err → List Err → Option Err
  pub matches : Option Err → List Err → Bool
  pub convert : Option Err → Err → List Err → Option Err
  pub first : Option Err → Option Err → Option Err
  -- The error that a deferred `Recover` stores, or the panic that it lets pass.
  pub recover : Fault → Res Err
  pub panic_none : panic none ≡ ok tt
  pub panic_some : (e : Err) → panic (some e) ≡ fail (error e)
  pub assert_true : (e : Option Err) → assert true e ≡ ok tt
  pub assert_false : (e : Err) → assert false (some e) ≡ fail (error e)
  -- A nil error is thrown too, and recovered as a nil error.
  pub assert_nil : assert false none ≡ fail nil_error
  pub ignore_none : (es : List Err) → ignore none es ≡ none
  pub ignore_some :
      (e : Err) (es : List Err) → ignore (some e) es ≡ (if elem_err e es then none else some e)
  pub matches_none : (es : List Err) → matches none es ≡ false
  pub matches_some : (e : Err) (es : List Err) → matches (some e) es ≡ elem_err e es
  pub convert_none : (e : Err) (es : List Err) → convert none e es ≡ none
  pub convert_some :
      (e f : Err) (es : List Err)
      → convert (some e) f es ≡ (if elem_err e es then some f else some e)
  pub first_none : (e : Option Err) → first none e ≡ e
  pub first_some : (e : Err) (f : Option Err) → first (some e) f ≡ some e
  pub recover_error : (e : Err) → recover (error e) ≡ ok e
  pub recover_stuck : recover stuck ≡ fail stuck
