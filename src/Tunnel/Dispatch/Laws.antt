-- ===== src/Tunnel/Dispatch/Laws.antt =====
-- server/src/tunnel/dispatch.rs: requests are answered once, under their id; notifications are not.
use overacp.Auth.{Claims}
use overacp.Json.{Serde, Value, boolean, get_key}
use overacp.Prelude.Int.{negsuc, pos, ℤ, ◌≤ℤ◌}
use overacp.Prelude.Result.{Result, err, ok}
use overacp.Prelude.Texts.{push_str}
use overacp.Prelude.{
  Bool, Option, String, [], any, ap, arith, false, if◌then◌else◌, inl, inr, nat_eq, none, refl,
  same_iff, some, string_eq, subst, sym, true, ◌==◌, ◌∙◌, ◌∷◌, ◌≡◌, ◌⊎◌,
}
use overacp.Tunnel.Dispatch.{
  RpcError, after_hook, after_method, after_parse, boot_err, dispatch, handle_initialize,
  handle_message, handle_quota_check, handle_quota_update, handle_tools_call, handle_tools_list,
  is_notification, jsonrpc_response, method_of, or_null, quota_err, tool_err,
}
use overacp.Tunnel.Hooks.{
  BootError, Hooks, QuotaError, ToolError, boot_internal, boot_not_found, boot_text, empty_object,
  object_of, quota_internal, quota_text, tool_denied, tool_execution, tool_internal, tool_not_found,
  tool_text,
}

abbrev pub is_hook_method : String → Bool
is_hook_method method =
    any (λ m. method == m)
      ("initialize" ∷ "tools/list" ∷ "tools/call" ∷ "quota/check" ∷ "quota/update" ∷ [])

-- A response that was made of what a hook returned: of its value, or of its error's text under a code
-- of an application. The operator's state is the hook's.
abbrev pub Comes :
    {S E A : Type 0}
    → (A → Value)
    → (E → String)
    → Result E A × S
    → Result RpcError Value × S
    → Type 0
Comes to_value text (ok a, s1) (r, s2) = (r ≡ ok (to_value a)) × (s2 ≡ s1)
Comes to_value text (err e, s1) (r, s2) =
    ((code : ℤ) × (r ≡ err (code, text e)) × (pos 1000 ≤ℤ code)) × (s2 ≡ s1)

boot_err-Comes :
    {S : Type 0} (p : Result BootError Value × S)
    → Comes (λ v. v) boot_text p (after_hook (λ v. v) boot_err p)
unfolding boot_err
boot_err-Comes (ok v, s) = (refl, refl)
boot_err-Comes (err (boot_not_found t), s) = ((_, refl, omega arith), refl)
boot_err-Comes (err (boot_internal t), s) = ((_, refl, omega arith), refl)

tool_err-Comes :
    {S : Type 0} (p : Result ToolError Value × S)
    → Comes (λ v. v) tool_text p (after_hook (λ v. v) tool_err p)
unfolding tool_err
tool_err-Comes (ok v, s) = (refl, refl)
tool_err-Comes (err (tool_not_found t), s) = ((_, refl, omega arith), refl)
tool_err-Comes (err (tool_denied t), s) = ((_, refl, omega arith), refl)
tool_err-Comes (err (tool_execution t), s) = ((_, refl, omega arith), refl)
tool_err-Comes (err (tool_internal t), s) = ((_, refl, omega arith), refl)

quota_err-Comes :
    {S A : Type 0} (f : A → Value) (p : Result QuotaError A × S)
    → Comes f quota_text p (after_hook f quota_err p)
unfolding quota_err
quota_err-Comes f (ok v, s) = (refl, refl)
quota_err-Comes f (err (quota_internal t), s) = ((_, refl, omega arith), refl)

module _ (serde : Serde) {S : Type 0} (hooks : Hooks S) (claims : Claims) where
  -- Which hook serves which method, with its params, and what its response is made of.
  abbrev pub ServedBy : String → Value → S → Result RpcError Value × S → Type 0
  ServedBy method params s p =
      ((method ≡ "initialize") × Comes (λ v. v) boot_text (hooks.initialize claims s) p)
      ⊎ ((method ≡ "tools/list") × Comes (λ v. v) tool_text (hooks.list claims s) p)
      ⊎ ((method ≡ "tools/call") × Comes (λ v. v) tool_text (hooks.call claims params s) p)
      ⊎ ((method ≡ "quota/check")
          × Comes (λ allowed. object_of "allowed" (boolean allowed)) quota_text
              (hooks.check claims s) p)
      ⊎ ((method ≡ "quota/update")
          × Comes (λ nothing. empty_object) quota_text (hooks.record_usage claims params s) p)
      ⊎ ((is_hook_method method ≡ false)
          × (p ≡ (err (negsuc 32600, push_str "method not found: " method), s)))

  abbrev Answered : String → Value → Value → S → Option String × S → Type 0
  Answered method i params s (answer, after) =
      (r : Result RpcError Value) × (answer ≡ some (jsonrpc_response serde i r))
      × ServedBy method params s (r, after)

  if-Answered :
      (method : String) (i params : Value) (s : S) (b : Bool) (x y : Option String × S)
      → (b ≡ true → Answered method i params s x)
      → (b ≡ false → Answered method i params s y)
      → Answered method i params s (if b then x else y)
  if-Answered method i params s true x y f g = f refl
  if-Answered method i params s false x y f g = g refl

  dispatch-Answered :
      (method : String) (i params : Value) (s : S)
      → is_notification method ≡ false
      → Answered method i params s (dispatch serde hooks claims method (some i) params s)
  unfolding dispatch handle_initialize handle_tools_list handle_tools_call handle_quota_check
      handle_quota_update
  dispatch-Answered method i params s h =
      let named = λ (name : String) (e : (method == name) ≡ true). (same_iff method name).0 e in
      if-Answered method i params s (method == "initialize") _ _
        (λ e. (_, refl, inl (named _ e, boot_err-Comes _)))
        (λ n0.
          if-Answered method i params s (method == "tools/list") _ _
            (λ e. (_, refl, inr (inl (named _ e, tool_err-Comes _))))
            (λ n1.
              if-Answered method i params s (method == "tools/call") _ _
                (λ e. (_, refl, inr (inr (inl (named _ e, tool_err-Comes _)))))
                (λ n2.
                  if-Answered method i params s (method == "quota/check") _ _
                    (λ e. (_, refl, inr (inr (inr (inl (named _ e, quota_err-Comes _ _))))))
                    (λ n3.
                      if-Answered method i params s (method == "quota/update") _ _
                        (λ e.
                          (_, refl, inr (inr (inr (inr (inl (named _ e, quota_err-Comes _ _)))))))
                        (λ n4.
                          if-Answered method i params s (is_notification method) _ _
                            (λ e. absurd (ground arith))
                            (λ n5. (
                              _,
                              refl,
                              inr (
                                  inr (
                                    inr (inr (inr (rw n0 (rw n1 (rw n2 (rw n3 (rw n4)))), refl))))),
                            )))))))

  -- A message whose text parses to a value with the text `method` as its method and an id, and whose
  -- method is none of the notifications', is answered under that id. The response is made of what the
  -- hook of the method returns for the claims and the message's params (null if there are none): its
  -- value, or its error's text under a code of at least 1000; the operator's state afterwards is the
  -- hook's. If no hook serves the method, the response has the code -32601 and the state is unchanged.
  pub handle_message_answers :
      (message : String) (parsed : Value) (method : String) (i : Value) (s : S)
      → serde.from_str message ≡ some parsed
      → method_of parsed ≡ some method
      → get_key parsed "id" ≡ some i
      → is_notification method ≡ false
      → let (answer, after) = handle_message serde hooks claims message s in
        (r : Result RpcError Value) × (answer ≡ some (jsonrpc_response serde i r))
        × ServedBy method (or_null (get_key parsed "params")) s (r, after)
  unfolding handle_message dispatch
  handle_message_answers message parsed method i s e m h n =
      let params = or_null (get_key parsed "params") in
      subst (λ o. Answered method i params s (after_parse serde hooks claims o s)) (sym e)
        (subst (λ o. Answered method i params s (after_method serde hooks claims o parsed s))
          (sym m) (rw h (dispatch-Answered method i params s n)))

  if-silent :
      (s : S) (b : Bool) (x y : Option String × S)
      → (b ≡ true → x ≡ (none, s))
      → y ≡ (none, s)
      → (if b then x else y) ≡ (none, s)
  if-silent s true x y f g = f refl
  if-silent s false x y f g = g

  true_is_false : true ≡ false → ⊥
  true_is_false e = ground arith

  notified_apart :
      (method name : String)
      → is_notification name ≡ false
      → is_notification method ≡ true
      → (method == name) ≡ true
      → ⊥
  notified_apart method name apart notified e =
      absurd
        (true_is_false (sym notified ∙ ap is_notification ((same_iff method name).0 e) ∙ apart))

  dispatch-no_id :
      (method : String) (params : Value) (s : S)
      → dispatch serde hooks claims method none params s ≡ (none, s)
  unfolding dispatch
  dispatch-no_id method params s =
      if-silent s (method == "initialize") _ _ (λ e. refl)
        (if-silent s (method == "tools/list") _ _ (λ e. refl)
          (if-silent s (method == "tools/call") _ _ (λ e. refl)
            (if-silent s (method == "quota/check") _ _ (λ e. refl)
              (if-silent s (method == "quota/update") _ _ (λ e. refl)
                (if-silent s (is_notification method) _ _ (λ e. refl) refl)))))

  dispatch-silent :
      (method : String) (i : Option Value) (params : Value) (s : S)
      → (i ≡ none) ⊎ (is_notification method ≡ true)
      → dispatch serde hooks claims method i params s ≡ (none, s)
  unfolding dispatch
  dispatch-silent method i params s (inl h) = rw h (dispatch-no_id method params s)
  dispatch-silent method i params s (inr h) =
      if-silent s (method == "initialize") _ _ (λ e. absurd (notified_apart method _ refl h e))
        (if-silent s (method == "tools/list") _ _ (λ e. absurd (notified_apart method _ refl h e))
          (if-silent s (method == "tools/call") _ _ (λ e. absurd (notified_apart method _ refl h e))
            (if-silent s (method == "quota/check") _ _
              (λ e. absurd (notified_apart method _ refl h e))
              (if-silent s (method == "quota/update") _ _
                (λ e. absurd (notified_apart method _ refl h e)) (rw h)))))

  after_method-no_id :
      (o : Option String) (parsed : Value) (s : S)
      → get_key parsed "id" ≡ none
      → after_method serde hooks claims o parsed s ≡ (none, s)
  after_method-no_id none parsed s h = refl
  after_method-no_id (some method) parsed s h = dispatch-silent method _ _ s (inl h)

  -- A message whose text does not parse, or that has no text as its method, or no id, or the method
  -- of a notification, gets no response and calls no hook: the operator's state stays as it is.
  pub handle_message_silent :
      (message : String) (s : S)
      → (serde.from_str message ≡ none)
        ⊎ ((parsed : Value) × (serde.from_str message ≡ some parsed)
            × ((method_of parsed ≡ none)
                ⊎ (get_key parsed "id" ≡ none)
                ⊎ ((method : String) × (method_of parsed ≡ some method)
                    × (is_notification method ≡ true))))
      → handle_message serde hooks claims message s ≡ (none, s)
  unfolding handle_message
  handle_message_silent message s (inl e) = rw e
  handle_message_silent message s (inr (parsed, e, inl m)) = rw e (rw m)
  handle_message_silent message s (inr (parsed, e, inr (inl h))) =
      subst (λ o. after_parse serde hooks claims o s ≡ (none, s)) (sym e)
        (after_method-no_id (method_of parsed) parsed s h)
  handle_message_silent message s (inr (parsed, e, inr (inr (method, m, n)))) =
      subst (λ o. after_parse serde hooks claims o s ≡ (none, s)) (sym e)
        (subst (λ o. after_method serde hooks claims o parsed s ≡ (none, s)) (sym m)
          (dispatch-silent method _ _ s (inr n)))
