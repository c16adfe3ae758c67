-- ===== src/Registry/Consul/Locks.antt =====
-- Which calls of the consul registry give the lock of the cache back.
use kuja.Prelude.{ℕ, suc, ◌≡◌, refl, ap, ◌∙◌, false, Option, none, some, List, [], ◌∷◌, Str}
use kuja.Prelude.Dict.{Dict, lookup, insert}
use kuja.Registry.{NodeList, Asked, refused, gives}
use kuja.Registry.Mutex.{Cache, done, waits, ◌>>=◌, continue}
use kuja.Registry.Consul.{
  Catalog, CatalogReply, error, reply, known_or_asked, get_service, list_services, remember,
  unless_error, fill, fill_listed, watch,
}
use kuja.Registry.Consul.Watcher.{ServiceEntry, service_handler}

module _ (x : Catalog) where
  pub get_service-readable :
      (name : Str) (c : Cache)
      → c.writer ≡ false
      → get_service x name c ≡ done (known_or_asked x name (lookup name c.services)) c
  unfolding get_service
  get_service-readable name c free = rw (free, get_service) refl

  -- The readers that `ListServices` leaves: one more where the cache has a service.
  abbrev pub readers_after : Dict NodeList → ℕ → ℕ
  readers_after [] n = n
  readers_after (e ∷ services) n = suc n

  abbrev freed : Dict NodeList → ℕ → Cache
  freed d n = record { services = d; readers = n; writer = false }

  list_services-leaves :
      (d : Dict NodeList) (n : ℕ)
      → (r : CatalogReply (List NodeList)) × (list_services x (freed d n)
          ≡ done r (freed d (readers_after d n)))
  unfolding list_services
  list_services-leaves [] n = (_, refl)
  list_services-leaves (e ∷ d) n = (_, refl)

  abbrev Filled : List NodeList → Dict NodeList → ℕ → Type 0
  Filled l d n =
      (e : Option Str) × (d' : Dict NodeList) × (fill x l (freed d n) ≡ done e (freed d' n))

  remember-Returns :
      (rest : List NodeList) (d : Dict NodeList) (n : ℕ) (a : Asked NodeList)
      → ((d₁ : Dict NodeList) → Filled rest d₁ n)
      → (e : Option Str) × (d' : Dict NodeList) × ((remember x a >>= unless_error x (fill x rest))
            (freed d n)
          ≡ done e (freed d' n))
  remember-Returns rest d n (refused e) ih = (some e, d, refl)
  remember-Returns rest d n (gives none) ih = ih d
  remember-Returns rest d n (gives (some t)) ih = ih (insert t.name t d)

  -- `fill` returns and leaves the lock as it was.
  fill-Returns : (l : List NodeList) (d : Dict NodeList) (n : ℕ) → Filled l d n
  unfolding fill get_service
  fill-Returns [] d n = (none, d, refl)
  fill-Returns (s ∷ rest) d n =
      remember-Returns rest d n (known_or_asked x s.name (lookup s.name d))
        (λ d₁. fill-Returns rest d₁ n)

  fill_listed-Returns :
      (r : CatalogReply (List NodeList)) (d : Dict NodeList) (n : ℕ)
      → (e : Option Str) × (d' : Dict NodeList) × (fill_listed x r (freed d n)
          ≡ done e (freed d' n))
  fill_listed-Returns (error e) d n = (some e, d, refl)
  fill_listed-Returns (reply l) d n = fill-Returns l d n

  -- `Watch` returns whenever no writer holds the lock, and then leaves one more reader where the cache
  -- had a service, and none more where it had not.
  pub watch-readers :
      (c : Cache)
      → c.writer ≡ false
      → (e : Option Str) × (c' : Cache) × (watch x c ≡ done e c')
        × (c'.writer ≡ false)
        × (c'.readers ≡ readers_after c.services c.readers)
  unfolding watch
  watch-readers c free =
      let d = c.services in
      let n = c.readers in
      let (r, listed) = list_services-leaves d n in
      let (e, d', filled) = fill_listed-Returns r d (readers_after d n) in
      (
        e,
        freed d' (readers_after d n),
        rw free (ap (continue (fill_listed x)) listed ∙ filled),
        refl,
        refl,
      )

  service_handler-waits :
      (entries : List ServiceEntry) (c : Cache) (n : ℕ)
      → c.readers ≡ suc n
      → service_handler x (some entries) c ≡ waits
  service_handler-waits entries c n e = rw e refl

  -- After `ListServices` on a cache with a service, the watcher's handler waits for the lock for ever:
  -- no update of a service reaches the cache any more.
  pub list_services-service_handler :
      (c : Cache) (entry : Str × NodeList) (rest : Dict NodeList) (entries : List ServiceEntry)
      → c.services ≡ entry ∷ rest
      → c.writer ≡ false
      → (list_services x >>= λ r. service_handler x (some entries)) c ≡ waits
  list_services-service_handler c entry rest entries filled free =
      let (r, listed) = list_services-leaves (entry ∷ rest) c.readers in
      rw (filled, free) (ap (continue (λ r. service_handler x (some entries))) listed)
