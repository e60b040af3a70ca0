-- ===== src/CommandListener/Answers.antt =====
-- What a client may count on of the messages to a command: codes below 200 say that more is to come,
-- as server/ResponseCode.h has it.
use platform_system_netd.Prelude.{◌≡◌, refl, Bool, true, false, ◌&&◌, List, [], ◌∷◌, map, leb, ltb}
use platform_system_netd.CommandListener.Daemon.{Reply}

-- Any number of messages that announce more, and then exactly one that ends the answer.
abbrev pub is_answer : List Reply → Bool
is_answer [] = false
is_answer (r ∷ []) = leb 200 r.code
is_answer (r ∷ s ∷ replies) = ltb r.code 200 && is_answer (s ∷ replies)

abbrev pub announce_more : List Reply → Bool
announce_more [] = true
announce_more (r ∷ replies) = ltb r.code 200 && announce_more replies

pub is_answer-cons :
    (r : Reply) (replies : List Reply)
    → ltb r.code 200 ≡ true
    → is_answer replies ≡ true
    → is_answer (r ∷ replies) ≡ true
is_answer-cons r [] more h = cc
is_answer-cons r (s ∷ replies) more h = rw more h

pub announce_more-map {ℓ} :
    {A : Type ℓ} (f : A → Reply)
    → ((a : A) → ltb (f a).code 200 ≡ true)
    → (l : List A) → announce_more (map f l) ≡ true
announce_more-map f each [] = refl
announce_more-map f each (a ∷ l) = rw (each a) (announce_more-map f each l)
