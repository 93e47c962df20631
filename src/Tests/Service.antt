-- ===== src/Tests/Service.antt =====
-- The client of the scanning service.
use maitland.Base.{ℕ, ◌≡◌, refl, some, [], ◌∷◌, codes, if◌then◌else◌, ◌==◌}
use maitland.Service.{
  HashClass, hash_class, Answer, denied, verdict, ProcessData, submit_hash, search_hash_list,
  append_list, master_clean_up,
}
use maitland.Service.Cached.{Remembers, submit_hash-Remembers}

-- Two pages of process 42, whose last one is not known.
abbrev process : ProcessData
process = record {
  pages = codes "first" ∷ codes "last" ∷ [];
  process_id = 42;
  process_age = 2;
  domain_id = 3;
}

-- The service denies the first call.
abbrev remote : ℕ → Answer
remote n = if n == 0 then denied else verdict (codes "b")

abbrev known : HashClass
known = record (hash_class (codes "last") 42 2 3) { status = codes "b" }

run : submit_hash remote 10 process [] ≡ some (known ∷ [], codes "b")
unfolding submit_hash search_hash_list append_list master_clean_up
run = refl

submit_hash-Remembers_example : Remembers process [] (known ∷ []) (codes "b")
submit_hash-Remembers_example =
    submit_hash-Remembers remote 10 process [] (known ∷ []) (codes "b") run
