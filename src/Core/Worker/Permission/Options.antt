-- ===== src/Core/Worker/Permission/Options.antt =====
-- The options of a request for permission in core/worker.py, and the answer that core/dispatcher.py makes of a click.
use next_me.Common.{
  zero, suc, ◌+◌, ◌&&◌, get_elem?-beyond, find, List, ℕ, Bool, ◌≡◌, refl, true, false, some, [],
  ◌∷◌, any, ◌==◌, string_comparable, nat_comparable, get_elem?, arith,
}
use next_me.Core.Types.{PermOption, PermissionChoice}
use next_me.Core.Session.{Session}
use next_me.Core.Replies.{is_option, choice_of}
use next_me.Core.Worker.Permission.{PermissionRequest, is_nil, chosen}

-- The options are numbered, from a number on.
abbrev pub numbered_from : ℕ → List PermOption → Bool
numbered_from n [] = true
numbered_from n (opt ∷ rest) = opt.index == n && numbered_from (suc n) rest

pub numbered_find :
    (k n : ℕ) (options : List PermOption) (opt : PermOption)
    → numbered_from k options ≡ true
    → get_elem? options n ≡ some opt
    → find (is_option (k + n)) options ≡ some opt
numbered_find k n [] opt h e = ground arith
numbered_find k zero (o ∷ rest) opt h e = ground (arith, nat_comparable.equals_iff)
numbered_find k (suc n) (o ∷ rest) opt h e = ground (
  arith,
  numbered_find (suc k) n rest opt,
  nat_comparable.equals_iff o.index k,
  nat_comparable.equals_iff o.index (k + suc n),
)

pub offered_any :
    (index : ℕ) (options : List PermOption) (opt : PermOption)
    → find (is_option index) options ≡ some opt
    → any (is_option index) options ≡ true
offered_any index [] opt e = ground arith
offered_any index (o ∷ rest) opt e = ground (arith, offered_any index rest opt)

pub offered_options :
    (n : ℕ) (options : List PermOption) (opt : PermOption)
    → get_elem? options n ≡ some opt
    → is_nil options ≡ false
offered_options n [] opt e = ground arith
offered_options n (o ∷ rest) opt e = refl

-- The answer that names an option at a place.
abbrev pub picked : ℕ → PermOption → PermissionChoice
picked n opt = record { request_id = ""; option_index = n + 1; option_label = opt.label }

pub choice_of-picked :
    (n : ℕ) (s : Session) (opt : PermOption)
    → numbered_from 1 s.perm_options ≡ true
    → get_elem? s.perm_options n ≡ some opt
    → choice_of (n + 1) s ≡ picked n opt
choice_of-picked n s opt h e =
    let found : find (is_option (n + 1)) s.perm_options ≡ some opt =
      ground (arith, numbered_find 1 n s.perm_options opt h e) in
    rw found refl

pub chosen-picked :
    (req : PermissionRequest) (n : ℕ) (opt : PermOption)
    → get_elem? req.options n ≡ some opt
    → chosen req (picked n opt) ≡ some opt
chosen-picked req n opt e = ground (arith, get_elem?-beyond req.options n)
