-- ===== src/Pmap/Clients.antt =====
-- The refinement theorem of Pool on a client that takes pages, gives one back and takes it again.
use mit_jos_f22_advanced_os.Base.{◌≡◌, refl, true, false, some, none, List, [], ◌∷◌, arith, update}
use mit_jos_f22_advanced_os.Pmap.Mem.{Machine}
use mit_jos_f22_advanced_os.Pmap.Pool.{
  Call, take, give, Pool, IsPool, pool_step, machine_step, run, run_refines,
}
use mit_jos_f22_advanced_os.Pmap.Tests.{tiny, free_pages, tiny-IsFreeList}

abbrev tiny_pool : Pool
tiny_pool = record { free = free_pages; held = λ _. false }

tiny-IsPool : IsPool tiny tiny_pool
tiny-IsPool = record {
  list = tiny-IsFreeList;
  apart = λ i h. ground (arith, h);
  unused = λ i h. ground (arith, h);
  inside = λ i h. ground (arith, h);
}

-- Two pages are taken and the first is given back and taken again.
abbrev calls : List Call
calls = take true ∷ take false ∷ give 3 ∷ take true ∷ []

pool-run :
    run pool_step calls tiny_pool
    ≡ some (
      some 3 ∷ some 4 ∷ none ∷ some 3 ∷ [],
      record {
        free = 5 ∷ 6 ∷ [];
        held = update (update (update (update (λ _. false) 3 true) 4 true) 3 false) 3 true;
      },
    )
unfolding run
pool-run = refl

run_refines_example :
    (m' : Machine) × (run machine_step calls tiny ≡ some (some 3 ∷ some 4 ∷ none ∷ some 3 ∷ [], m'))
    × IsPool m' (record {
      free = 5 ∷ 6 ∷ [];
      held = update (update (update (update (λ _. false) 3 true) 4 true) 3 false) 3 true;
    })
run_refines_example =
    run_refines calls tiny tiny_pool
      (record {
        free = 5 ∷ 6 ∷ [];
        held = update (update (update (update (λ _. false) 3 true) 4 true) 3 false) 3 true;
      })
      (some 3 ∷ some 4 ∷ none ∷ some 3 ∷ []) tiny-IsPool pool-run
