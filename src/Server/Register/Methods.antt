-- ===== src/Server/Register/Methods.antt =====
-- Which methods a service offers.
use mathlib.Core.Path.{subst}
use mathlib.Core.List.{Mem, mem-cons_of_mem, mem-cons_self}
use kuja.Prelude.{◌≡◌, refl, sym, ap, ◌∙◌, arith, Bool, true, ◌&&◌, Bool-cases, inl, inr, ◌⊎◌, ◌↔◌}
use kuja.Prelude.{
  Option, none, some, Option-cases, List, [], ◌∷◌, ◌++◌, All, Str, str_eq, str_eq_iff,
}
use kuja.Prelude.Dict.{Dict, lookup, insert, lookup-insert}
use kuja.Server.Register.{
  GoType, ReflectMethod, MethodType, is_error, is_pointer, args_of, is_exported_or_builtin,
  reply_of, with_argument, with_types, prepare_method, install,
}

abbrev pub listed : Option GoType → List GoType
listed none = []
listed (some t) = t ∷ []

module _ (is_upper : Str → Bool) where
  -- The methods that are offered, described by the shape of their types.
  pub record Suitable (m : ReflectMethod) (mt : MethodType) : Type 0 where
    pub receiver : GoType
    pub failure : GoType
    pub exported : m.pkg_path ≡ []
    pub same : mt.method ≡ m
    pub ins : m.ins ≡ receiver ∷ (listed mt.context_type ++ (mt.arg_type ∷ []))
    pub outs : m.outs ≡ listed mt.reply_type ++ (failure ∷ [])
    pub fails : is_error failure ≡ true
    pub replies :
        All (λ t. (is_pointer t && is_exported_or_builtin is_upper t) ≡ true) (listed mt.reply_type)
    pub argument : is_exported_or_builtin is_upper mt.arg_type ≡ true

  args_of_lem :
      (ts : List GoType) (c : Option GoType) (a : GoType)
      → args_of ts ≡ some (c, a)
      → (r : GoType) × (ts ≡ r ∷ (listed c ++ (a ∷ [])))
  unfolding args_of
  args_of_lem [] c a e = absurd cc
  args_of_lem (r ∷ []) c a e = absurd cc
  args_of_lem (r ∷ b ∷ []) c a e = (r, cc)
  args_of_lem (r ∷ d ∷ b ∷ []) c a e = (r, cc)
  args_of_lem (r ∷ d ∷ b ∷ f ∷ rest) c a e = absurd cc

  args_of-listed :
      (r : GoType) (c : Option GoType) (a : GoType)
      → args_of (r ∷ (listed c ++ (a ∷ []))) ≡ some (c, a)
  unfolding args_of
  args_of-listed r none a = refl
  args_of-listed r (some c) a = refl

  reply_of_lem :
      (ts : List GoType) (r : Option GoType)
      → reply_of is_upper ts ≡ some r
      → (e : GoType) × (ts ≡ listed r ++ (e ∷ []))
        × (is_error e ≡ true)
        × All (λ t. (is_pointer t && is_exported_or_builtin is_upper t) ≡ true) (listed r)
  unfolding reply_of
  reply_of_lem [] r e = absurd cc
  reply_of_lem (t ∷ []) none e = (t, refl, ground (arith, e), tt)
  reply_of_lem (t ∷ []) (some u) e = absurd (ground (arith, e))
  reply_of_lem (t ∷ f ∷ []) none e = absurd (ground (arith, e))
  reply_of_lem (t ∷ f ∷ []) (some u) e =
      let h : t ≡ u = ground (arith, e) in
      (
        f,
        ap (λ v. v ∷ f ∷ []) h,
        ground (arith, e),
        (
          subst (λ v. (is_pointer v && is_exported_or_builtin is_upper v) ≡ true) h
              (ground (arith, e)),
          tt,
        ),
      )
  reply_of_lem (t ∷ f ∷ u ∷ rest) r e = absurd cc

  reply_of-listed :
      (r : Option GoType) (e : GoType)
      → is_error e ≡ true
      → All (λ t. (is_pointer t && is_exported_or_builtin is_upper t) ≡ true) (listed r)
      → reply_of is_upper (listed r ++ (e ∷ [])) ≡ some r
  unfolding reply_of
  reply_of-listed none e h all = ground (arith, h)
  reply_of-listed (some t) e h (good, rest) = ground (arith, h, good)

  abbrev made : ReflectMethod → Option GoType → GoType → Option GoType → MethodType
  made m c a r = record { method = m; arg_type = a; reply_type = r; context_type = c }

  with_argument_lem :
      (m : ReflectMethod) (c : Option GoType) (a : GoType) (o : Option (Option GoType))
      (mt : MethodType)
      → with_argument is_upper m c a o ≡ some mt
      → (r : Option GoType) × (o ≡ some r)
        × (is_exported_or_builtin is_upper a ≡ true)
        × (made m c a r ≡ mt)
  with_argument_lem m c a none mt e = absurd cc
  with_argument_lem m c a (some r) mt e = (r, refl, ground (arith, e), ground (arith, e))

  with_types_lem :
      (m : ReflectMethod) (o : Option (Option GoType × GoType)) (mt : MethodType)
      → with_types is_upper m o ≡ some mt
      → (c : Option GoType) × (a : GoType) × (o ≡ some (c, a))
        × (with_argument is_upper m c a (reply_of is_upper m.outs) ≡ some mt)
  with_types_lem m none mt e = absurd cc
  with_types_lem m (some (c, a)) mt e = (c, a, refl, e)

  prepare_method-unexported :
      (m : ReflectMethod) (mt : MethodType)
      → prepare_method is_upper m ≡ some mt
      → (m.pkg_path ≡ []) × (with_types is_upper m (args_of m.ins) ≡ some mt)
  unfolding prepare_method
  prepare_method-unexported m mt e = ground (arith, e, str_eq_iff m.pkg_path [])

  prepare_method-exported :
      (m : ReflectMethod)
      → m.pkg_path ≡ []
      → prepare_method is_upper m ≡ with_types is_upper m (args_of m.ins)
  unfolding prepare_method
  prepare_method-exported m e = ground (arith, e, str_eq_iff m.pkg_path [])

  prepared-Suitable :
      (m : ReflectMethod) (mt : MethodType) → prepare_method is_upper m ≡ some mt → Suitable m mt
  prepared-Suitable m mt e =
      let (exported, typed) = prepare_method-unexported m mt e in
      let (c, a, args, rest) = with_types_lem m (args_of m.ins) mt typed in
      let (r, reply, argument, same) = with_argument_lem m c a (reply_of is_upper m.outs) mt rest in
      let (receiver, ins) = args_of_lem m.ins c a args in
      let (failure, outs, fails, replies) = reply_of_lem m.outs r reply in
      subst (Suitable m) same (record {
        receiver = receiver;
        failure = failure;
        exported = exported;
        same = refl;
        ins = ins;
        outs = outs;
        fails = fails;
        replies = replies;
        argument = argument;
      })

  Suitable-prepared :
      (m : ReflectMethod) (mt : MethodType) → Suitable m mt → prepare_method is_upper m ≡ some mt
  Suitable-prepared m mt h =
      let args : args_of m.ins ≡ some (mt.context_type, mt.arg_type) =
        ap args_of h.ins ∙ args_of-listed h.receiver mt.context_type mt.arg_type in
      let reply : reply_of is_upper m.outs ≡ some mt.reply_type =
        ap (reply_of is_upper) h.outs ∙ reply_of-listed mt.reply_type h.failure h.fails h.replies in
      prepare_method-exported m h.exported
      ∙ ap (with_types is_upper m) args
      ∙ ap (with_argument is_upper m mt.context_type mt.arg_type) reply
      ∙ ground (arith, h.argument)
      ∙ ap (λ k. some (made k mt.context_type mt.arg_type mt.reply_type)) (sym h.same)

  -- `prepareMethod` offers exactly the suitable methods: exported, with one argument, behind a
  -- context or not, and with an error as the last result, behind a reply or not, where the reply is
  -- a pointer and the types of the reply and of the argument are exported or predeclared.
  pub prepare_method-Suitable :
      (m : ReflectMethod) (mt : MethodType) → (prepare_method is_upper m ≡ some mt) ↔ Suitable m mt
  prepare_method-Suitable m mt = (prepared-Suitable m mt, Suitable-prepared m mt)

  -- Where an entry of the table of methods comes from.
  abbrev pub Offered : List ReflectMethod → Str → MethodType → Type 0
  Offered ms name mt = (m : ReflectMethod) × Mem m ms × (m.name ≡ name) × Suitable m mt

  Offered-later :
      (ms : List ReflectMethod) (m : ReflectMethod) (name : Str) (mt : MethodType)
      → Offered ms name mt
      → Offered (m ∷ ms) name mt
  Offered-later ms m name mt (k, in_ms, same, good) = (k, mem-cons_of_mem m in_ms, same, good)

  install_step :
      (m : ReflectMethod) (ms : List ReflectMethod) (d : Dict MethodType) (mt : MethodType)
      → prepare_method is_upper m ≡ some mt
      → install is_upper (m ∷ ms) d ≡ install is_upper ms (insert m.name mt d)
  unfolding install
  install_step m ms d mt e = rw (e, install)

  install_skip :
      (m : ReflectMethod) (ms : List ReflectMethod) (d : Dict MethodType)
      → prepare_method is_upper m ≡ none
      → install is_upper (m ∷ ms) d ≡ install is_upper ms d
  unfolding install
  install_skip m ms d e = rw (e, install)

  -- Each entry of the table that `install` makes was there before or is a suitable method of the
  -- receiver under its own name.
  pub install-Offered :
      (ms : List ReflectMethod) (d : Dict MethodType) (name : Str) (mt : MethodType)
      → lookup name (install is_upper ms d) ≡ some mt
      → (lookup name d ≡ some mt) ⊎ Offered ms name mt
  unfolding install
  install-Offered [] d name mt e = inl e
  install-Offered (m ∷ ms) d name mt e = elim (Option-cases (prepare_method is_upper m)) [
    | inl none_made ↦
        let later =
          install-Offered ms d name mt
            (sym (ap (lookup name) (install_skip m ms d none_made)) ∙ e) in
        elim later [ inl old ↦ inl old | inr new ↦ inr (Offered-later ms m name mt new) ]
    | inr (kt, made_kt) ↦
        let later =
          install-Offered ms (insert m.name kt d) name mt
            (sym (ap (lookup name) (install_step m ms d kt made_kt)) ∙ e) in
        elim later [
          | inl old ↦ elim (Bool-cases (str_eq m.name name)) [
            | inl same ↦
                let kt_mt : kt ≡ mt = ground (arith, same, old, lookup-insert m.name name kt d) in
                inr (
                  m,
                  mem-cons_self,
                  (str_eq_iff m.name name).0 same,
                  subst (Suitable m) kt_mt (prepared-Suitable m kt made_kt),
                )
            | inr other ↦ inl (ground (arith, other, old, lookup-insert m.name name kt d))
          ]
          | inr new ↦ inr (Offered-later ms m name mt new)
        ]
  ]
