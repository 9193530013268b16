-- ===== src/Hang/Reported.antt =====
-- `wlan_tx_status` of carlfw/src/wlantx.c, as far as the check of the queues sees it.
use carl9170fw.Base.{ℕ, zero, suc, ◌≡◌, ◌≢◌, refl, ◌∙◌, ap, List, [], ◌∷◌, length, get_elem?, All}
use carl9170fw.Hang.{Watch}

-- What `wlan_tx_status` does for the check: the count of the frame's queue starts again.
abbrev pub clear_num : ℕ → List Watch → List Watch
clear_num q [] = []
clear_num zero (w ∷ ws) = record w { last_super_num = 0 } ∷ ws
clear_num (suc q) (w ∷ ws) = w ∷ clear_num q ws

abbrev pub clear_nums : List ℕ → List Watch → List Watch
clear_nums [] ws = ws
clear_nums (q ∷ qs) ws = clear_nums qs (clear_num q ws)

get_elem?-clear_num :
    (q k : ℕ) (ws : List Watch) → q ≢ k → get_elem? (clear_num q ws) k ≡ get_elem? ws k
get_elem?-clear_num q k [] p = refl
get_elem?-clear_num zero zero (w ∷ ws) p = absurd (p refl)
get_elem?-clear_num zero (suc k) (w ∷ ws) p = refl
get_elem?-clear_num (suc q) zero (w ∷ ws) p = refl
get_elem?-clear_num (suc q) (suc k) (w ∷ ws) p = get_elem?-clear_num q k ws (λ e. p (ap suc e))

pub get_elem?-clear_nums :
    (qs : List ℕ) (k : ℕ) (ws : List Watch)
    → All (λ q. q ≢ k) qs
    → get_elem? (clear_nums qs ws) k ≡ get_elem? ws k
get_elem?-clear_nums [] k ws p = refl
get_elem?-clear_nums (q ∷ qs) k ws p =
    get_elem?-clear_nums qs k (clear_num q ws) p.1 ∙ get_elem?-clear_num q k ws p.0

length-clear_num : (q : ℕ) (ws : List Watch) → length (clear_num q ws) ≡ length ws
length-clear_num q [] = refl
length-clear_num zero (w ∷ ws) = refl
length-clear_num (suc q) (w ∷ ws) = ap suc (length-clear_num q ws)

pub length-clear_nums : (qs : List ℕ) (ws : List Watch) → length (clear_nums qs ws) ≡ length ws
length-clear_nums [] ws = refl
length-clear_nums (q ∷ qs) ws = length-clear_nums qs (clear_num q ws) ∙ length-clear_num q ws
