-- ===== src/Tests/Numbers.antt =====
-- A phone number in three spellings, and the table of one prefix.
use schapp.Base.{◌≡◌, refl, true, false, some, [], ◌∷◌, codes, List}
use schapp.Db.{ok, err}
use schapp.Phone.Msisdn.{PhoneLibrary, MsisdnError, Allocation, AllocationStatus, to_nsn, normalize}
use schapp.Phone.Msisdn.Stored.{normalize-again}

abbrev phones : PhoneLibrary
phones = record { is_unicode_digit = λ c. false; is_possible = λ e. some true }

abbrev table : List Allocation
table =
    record {
      ndc = codes "0803";
      status = AllocationStatus.assigned;
      allows_user_accounts = true;
      nsn_length = 10;
    }
    ∷ []

spelt : normalize phones table (some (codes "234 (0803) 123-4567")) ≡ ok (codes "+2348031234567")
unfolding normalize to_nsn
spelt = refl

true_from_false : {A : Type 0} → false ≡ true → A
true_from_false h = cc

normalize-again_example :
    normalize phones table (some (codes "+2348031234567")) ≡ ok (codes "+2348031234567")
normalize-again_example =
    normalize-again phones table (some (codes "234 (0803) 123-4567")) (codes "+2348031234567")
      (λ c h. true_from_false h) (refl, tt) spelt

too_short : normalize phones table (some (codes "0803 123")) ≡ err MsisdnError.bad_length
unfolding normalize to_nsn
too_short = refl

unknown_prefix :
    normalize phones table (some (codes "0703 123 4567")) ≡ err MsisdnError.unallocated_prefix
unfolding normalize to_nsn
unknown_prefix = refl
