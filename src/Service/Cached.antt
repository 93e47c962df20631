-- ===== src/Service/Cached.antt =====
-- What the table of verdicts remembers.
use maitland.Base.{
  ℕ, ◌<◌, ◌≤◌, ◌≡◌, refl, sym, ap, ◌∙◌, true, ==_refl, Option, none, some, List, [], ◌∷◌, ◌++◌,
  length, length-append, Text, text_eq_refl, arith,
}
use maitland.Service.{
  HashClass, hash_class, good, same_entry, search_hash_list, master_clean_up, append_list, max_size,
  Answer, ProcessData, last_page, remember, answer, submit_page, submit_hash,
}

-- The same page, age and domain, of whichever process.
search-id0 :
    (page : Text) (i j age domain : ℕ) (entries : List HashClass)
    → search_hash_list (hash_class page i age domain) entries
      ≡ search_hash_list (hash_class page j age domain) entries
unfolding search_hash_list
search-id0 page i j age domain [] = refl
search-id0 page i j age domain (e ∷ entries) = rw (search-id0 page i j age domain entries) refl

-- The newest entry is found first.
search-append :
    (obj e : HashClass) (entries : List HashClass)
    → same_entry obj e ≡ true
    → search_hash_list obj (entries ++ (e ∷ [])) ≡ some e.status
unfolding search_hash_list
search-append obj e [] h = rw h refl
search-append obj e (d ∷ entries) h = rw (search-append obj e entries h) refl

same_entry-marked : (obj : HashClass) (v : Text) → same_entry obj (record obj { status = v }) ≡ true
same_entry-marked obj v = rw (text_eq_refl obj.hash_key, ==_refl obj.id1, ==_refl obj.id2) refl

search-clean_up :
    (obj : HashClass) (entries : List HashClass)
    → search_hash_list obj entries ≡ none
    → search_hash_list obj (master_clean_up entries) ≡ none
unfolding master_clean_up search_hash_list
search-clean_up obj [] h = ground (arith, h)
search-clean_up obj (e ∷ entries) h = ground (arith, h)

length-clean_up :
    (entries : List HashClass)
    → length entries ≤ max_size
    → length (master_clean_up entries) < max_size
unfolding master_clean_up
length-clean_up [] h = ground arith
length-clean_up (e ∷ entries) h = ground arith

search-status :
    (obj : HashClass) (v : Text) (entries : List HashClass)
    → search_hash_list (record obj { status = v }) entries ≡ search_hash_list obj entries
unfolding search_hash_list
search-status obj v [] = refl
search-status obj v (e ∷ entries) = rw (search-status obj v entries) refl

append_list-absent :
    (obj : HashClass) (entries : List HashClass)
    → search_hash_list obj entries ≡ none
    → append_list obj entries ≡ entries ++ (obj ∷ [])
unfolding append_list
append_list-absent obj entries h = rw (append_list, h) refl

-- What a submission leaves for the later ones.
pub record Remembers (p : ProcessData) (entries entries' : List HashClass) (v : Text) : Type 0 where
  pub bounded : length entries ≤ max_size → length entries' ≤ max_size
  pub known :
      (remote : ℕ → Answer) (repeats : ℕ) (p' : ProcessData)
      → last_page p'.pages ≡ last_page p.pages
      → p'.process_age ≡ p.process_age
      → p'.domain_id ≡ p.domain_id
      → submit_hash remote repeats p' entries' ≡ some (entries', v)

-- A known last page is answered from the table.
submit_hash-hit :
    (remote : ℕ → Answer) (repeats : ℕ) (p : ProcessData) (page : Text) (i age domain : ℕ)
    (entries : List HashClass) (v : Text)
    → search_hash_list (hash_class page i age domain) entries ≡ some v
    → last_page p.pages ≡ some page
    → p.process_age ≡ age
    → p.domain_id ≡ domain
    → submit_hash remote repeats p entries ≡ some (entries, v)
unfolding submit_hash answer submit_page
submit_hash-hit remote repeats p page i age domain entries v found last a d =
    let hit : search_hash_list (hash_class page p.process_id p.process_age p.domain_id) entries
        ≡ some v =
      rw (a, d) (search-id0 page p.process_id i age domain entries ∙ found) in
    rw (submit_hash, last, hit) refl

-- A submission without pages is good whatever the table says.
submit_hash-empty :
    (remote : ℕ → Answer) (repeats : ℕ) (p : ProcessData) (entries : List HashClass)
    → last_page p.pages ≡ none
    → submit_hash remote repeats p entries ≡ some (entries, good)
unfolding submit_hash submit_page
submit_hash-empty remote repeats p entries e = rw (submit_hash, e) refl

-- What is entered is found again.
remember-found :
    (obj : HashClass) (entries entries' : List HashClass) (v : Text) (result : Option Text)
    → search_hash_list obj entries ≡ none
    → remember obj entries result ≡ some (entries', v)
    → (search_hash_list obj entries' ≡ some v)
      × (length entries ≤ max_size → length entries' ≤ max_size)
unfolding remember
remember-found obj entries entries' v none missed e = absurd (ground (arith, e))
remember-found obj entries entries' v (some result) missed e =
    let new = record obj { status = result } in
    let clean = master_clean_up entries in
    let absent : search_hash_list new clean ≡ none =
      search-status obj result clean ∙ search-clean_up obj entries missed in
    let listed : append_list new clean ≡ entries' = cc (e) in
    let table = sym (append_list-absent new clean absent) ∙ listed in
    let same : result ≡ v = cc (e) in
    (
      rw (← table) (search-append obj new clean (same_entry-marked obj result) ∙ ap some same),
      λ h. rw (← table) (omega (arith, length-append clean (new ∷ []), length-clean_up entries h)),
    )

answer-found :
    (remote : ℕ → Answer) (repeats : ℕ) (obj : HashClass) (entries entries' : List HashClass)
    (v : Text) (found : Option Text)
    → search_hash_list obj entries ≡ found
    → answer remote repeats obj entries found ≡ some (entries', v)
    → (search_hash_list obj entries' ≡ some v)
      × (length entries ≤ max_size → length entries' ≤ max_size)
unfolding answer
answer-found remote repeats obj entries entries' v (some status) e r =
    let same : entries ≡ entries' = cc (r) in
    let known : status ≡ v = cc (r) in rw (← same, ← known) (e, λ h. h)
answer-found remote repeats obj entries entries' v none e r =
    remember-found obj entries entries' v _ e r

-- Whatever the service answers: a submission that ends with a verdict, without an exception, leaves
-- a table of at most 100 entries, if it had at most 100 before. Every later submission whose last
-- page, process age and domain are the same gets that verdict from the table, without a call of the
-- service and whatever its other pages and its process are, as long as nothing else is entered.
pub submit_hash-Remembers :
    (remote : ℕ → Answer) (repeats : ℕ) (p : ProcessData) (entries entries' : List HashClass)
    (v : Text)
    → submit_hash remote repeats p entries ≡ some (entries', v)
    → Remembers p entries entries' v
unfolding submit_hash
submit_hash-Remembers remote repeats p entries entries' v e = by_page (last_page p.pages) refl e
  where
    by_page :
        (o : Option Text)
        → last_page p.pages ≡ o
        → submit_page remote repeats p entries o ≡ some (entries', v)
        → Remembers p entries entries' v
    by_page none last e =
        let same : entries ≡ entries' = cc (e) in
        let known : good ≡ v = cc (e) in
        rw (← same, ← known)
          (record {
            bounded = λ h. h;
            known = λ remote' repeats' p' pages age domain.
                submit_hash-empty remote' repeats' p' entries (pages ∙ last);
          })
    by_page (some page) last e =
        let obj = hash_class page p.process_id p.process_age p.domain_id in
        let (found, bounded) =
          answer-found remote repeats obj entries entries' v (search_hash_list obj entries) refl
            e in
        record {
          bounded = bounded;
          known = λ remote' repeats' p' pages age domain.
              submit_hash-hit remote' repeats' p' page p.process_id p.process_age p.domain_id
                entries' v found (pages ∙ last) age domain;
        }
