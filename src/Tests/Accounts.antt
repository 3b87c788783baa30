-- ===== src/Tests/Accounts.antt =====
-- A registration, and the management command that makes a superuser.
use Prim.Native.String.{String}
use shop_orbit.Base.{◌≡◌, refl, true, false, some, none, [], ◌∷◌, ◌⊎◌}
use shop_orbit.Accounts.Users.{
  User, Django, words, Registration, raised, UserError, unexpected_argument, is_blank, get, account,
  registration_form, create_superuser, register, welcome,
}
use shop_orbit.Accounts.Users.Signup.{IsDistinct, register-IsDistinct}
use shop_orbit.Accounts.Users.Superuser.{create_superuser-raises}

abbrev plain : Django
plain = record {
  normalize_email = λ t. t;
  lowered = λ t. t;
  fold = λ t. t;
  clean = λ f t. some t;
  is_valid = λ u. true;
}

create_superuser-raises_example :
    ((why : UserError) × (create_superuser plain 1 "root@shop.in" "secret"
          (("full_name", words "Root") ∷ [])
          []
        ≡ raised why))
    × (is_blank "root@shop.in" ≡ false
        → get "is_staff" (("full_name", words "Root") ∷ []) ≡ none
        → get "is_superuser" (("full_name", words "Root") ∷ []) ≡ none
        → create_superuser plain 1 "root@shop.in" "secret" (("full_name", words "Root") ∷ []) []
          ≡ raised unexpected_argument)
create_superuser-raises_example =
    create_superuser-raises plain 1 "root@shop.in" "secret" (("full_name", words "Root") ∷ []) []

abbrev post : Registration
post = record {
  full_name = "Asha";
  email = "asha@shop.in";
  phone_number = "9876543210";
  password1 = "x";
  password2 = "x";
}

abbrev customer : User
customer = account 1 "Ravi" "ravi@shop.in" "9876543211" "y"

-- a password of one letter is taken
takes_it : (register plain false 2 post (customer ∷ [])).0 ≡ welcome 2
unfolding register registration_form
takes_it = refl

register-IsDistinct_example :
    IsDistinct plain (register plain false 2 post (customer ∷ [])).1
    × (((register plain false 2 post (customer ∷ [])).1 ≡ customer ∷ [])
        ⊎ ((user : User) × (register plain false 2 post (customer ∷ [])
              ≡ (welcome 2, user ∷ customer ∷ []))
            × (user.is_staff ≡ false)
            × (user.is_superuser ≡ false)
            × (user.is_active ≡ true)
            × (p q : String) × (plain.clean "password1" post.password1 ≡ some p)
            × (plain.clean "password2" post.password2 ≡ some q)
            × (user.password ≡ p)
            × (is_blank p ≡ false → is_blank q ≡ false → p ≡ q)))
register-IsDistinct_example = register-IsDistinct plain false 2 post (customer ∷ []) (refl, tt)
