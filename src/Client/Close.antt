-- ===== src/Client/Close.antt =====
-- client/client.go: `Close`.
use kuja.Prelude.{◌≡◌, refl, sym, ap, ◌∙◌, Bool, false, Option, none, some, List, [], ◌∷◌, Str}
use kuja.Client.{
  Hystrix, ClientOption, Client, connect_broker, after_connect, new, set_options, new_option,
  direct, client_of, trim_url,
}

abbrev pub close_broker : {B : Type 0} → Option B → List B
close_broker none = []
close_broker (some b) = b ∷ []

-- `Close`: the broker that is closed, if any
unfoldable pub close : {B E T R : Type 0} → Client B E T R → List B
close client = close_broker client.option.broker

module _ {B E T R : Type 0} (connect : B → Option Str) (json : E) where
  after_connect-close :
      (watch : Bool) (c client : Client B E T R) (h : Hystrix) (b : B) (e : Option Str)
      → c.option.broker ≡ some b
      → (after_connect connect json watch c h b e).result ≡ some client
      → (after_connect connect json watch c h b e).connected ≡ close client
  unfolding close
  after_connect-close watch c client h b none is made =
      let same : c ≡ client = cc in
      sym (ap close_broker (sym (ap (λ d. d.option.broker) same) ∙ is))
  after_connect-close watch c client h b (some e) is made = absurd cc

  connect_broker-close :
      (watch : Bool) (c client : Client B E T R) (h : Hystrix) (o : Option B)
      → c.option.broker ≡ o
      → (connect_broker connect json watch c h o).result ≡ some client
      → (connect_broker connect json watch c h o).connected ≡ close client
  unfolding close
  connect_broker-close watch c client h none is made =
      let same : c ≡ client = cc in
      sym (ap close_broker (sym (ap (λ d. d.option.broker) same) ∙ is))
  connect_broker-close watch c client h (some b) is made =
      after_connect-close watch c client h b (connect b) is made

  -- A client of New closes the broker that New has connected, if there is one, and no other.
  new-close :
      (url : Str) (opts : List (ClientOption B E T)) (h : Hystrix) (client : Client B E T R)
      → (new connect json url opts h).result ≡ some client
      → (new {R = R} connect json url opts h).connected ≡ close client
  unfolding new
  new-close url opts h client made =
      let s = set_options opts (new_option json, h) in
      connect_broker-close false (client_of connect json (direct (trim_url url)) (some json) s.0)
        client s.1 s.0.broker refl made
