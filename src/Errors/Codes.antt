-- ===== src/Errors/Codes.antt =====
-- The code that is read back from an error.
use story.Base.{ℕ, ◌≤◌, ◌≡◌, ap, ◌∙◌, Bool, true, false, ◌||◌, List, [], ◌∷◌, ◌==◌, arith}
use story.Errors.{
  Error, code, has_code, known_codes, wrap_err_with_code, unwrap_err_code, first_code,
}

mem : ℕ → List ℕ → Bool
mem c [] = false
mem c (k ∷ ks) = c == k || mem c ks

first_code-mem :
    (c : ℕ) (e : Error) (ks : List ℕ)
    → ((k : ℕ) → has_code k e ≡ false)
    → mem c ks ≡ true
    → first_code ks (code c ∷ e) ≡ c
unfolding mem first_code
first_code-mem c e [] h m = ground arith
first_code-mem c e (k ∷ ks) h m =
    let rest = first_code-mem c e ks h in let free = h k in ground arith

known : (c : ℕ) → c ≤ 19 → mem c known_codes ≡ true
unfolding mem
known c h = ground arith

-- The code joined to an error that carries no code is the code read back, for every code that is
-- declared.
pub unwrap_err_code-wrap_err_with_code :
    (c : ℕ) (e : Error)
    → c ≤ 19
    → ((k : ℕ) → has_code k e ≡ false)
    → unwrap_err_code (wrap_err_with_code c e) ≡ c
unfolding unwrap_err_code
unwrap_err_code-wrap_err_with_code c e h free =
    let given : wrap_err_with_code c e ≡ code c ∷ e = ground arith in
    ap (first_code known_codes) given ∙ first_code-mem c e known_codes free (known c h)
