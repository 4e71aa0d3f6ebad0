-- ===== src/Authorization/Capabilities.antt =====
-- packages/authorization/src/capabilities.ts: the capabilities that can be granted.
use eclipse_erp.Base.{Bool, List, [], ◌∷◌, any}
use eclipse_erp.Text.{Text, codes, text_eq}

-- `CapabilityIds`
unfoldable pub capability_ids : List Text
capability_ids =
    codes "authorization.capability.grant"
    ∷ (codes "authorization.tenant_membership.add"
        ∷ (codes "authorization.tenant_membership.read"
            ∷ (codes "authorization.tenant_membership.suspend"
                ∷ (codes "authorization.tenant_membership.activate"
                    ∷ (codes "authorization.tenant_membership.remove"
                        ∷ (codes "identity.user_account.create"
                            ∷ (codes "identity.user_account.read"
                                ∷ (codes "identity.user_account.update"
                                    ∷ (codes "party.create"
                                        ∷ (codes "party.legal_entity.create"
                                            ∷ (codes "party.branch.create"
                                                ∷ (codes "party.party_role.assign"
                                                    ∷ (codes "party.party_relationship.create"
                                                        ∷ (codes "party.party_relationship.read"
                                                            ∷ (codes "party.party_identifier.attach"
                                                            ∷ (codes
                                                            "party.party_representation.create"
                                                            ∷ (codes
                                                            "party.party_representation.activate"
                                                            ∷ (codes
                                                            "party.party_representation.deactivate"
                                                            ∷ (codes "sales.customer.create"
                                                            ∷ (codes "sales.quotation.create"
                                                            ∷ (codes "sales.order.create"
                                                            ∷ (codes "sales.order.confirm"
                                                            ∷ (codes "sales.order.read"
                                                            ∷ (codes "sales.order.cancel"
                                                            ∷ (codes
                                                            "procurement.supplier_account.create"
                                                            ∷ (codes
                                                            "procurement.purchase_order.create"
                                                            ∷ (codes
                                                            "procurement.purchase_order.confirm"
                                                            ∷ (codes
                                                            "procurement.purchase_order.read"
                                                            ∷ (codes
                                                            "procurement.purchase_order.cancel"
                                                            ∷ (codes
                                                            "procurement.purchase_receipt.receive"
                                                            ∷ (codes
                                                            "process.order_confirmation.recover"
                                                            ∷ (codes
                                                            "process.order_confirmation.manual_recovery"
                                                            ∷ (codes "inventory.warehouse.create"
                                                            ∷ (codes "inventory.item.create"
                                                            ∷ (codes "inventory.stock.receive"
                                                            ∷ (codes "inventory.stock.adjust"
                                                            ∷ (codes "inventory.stock.reserve"
                                                            ∷ (codes "inventory.stock.release"
                                                            ∷ (codes "inventory.stock.fulfill"
                                                            ∷ (codes
                                                            "inventory.stock_transfer.create"
                                                            ∷ (codes
                                                            "inventory.stock_transfer.confirm"
                                                            ∷ (codes
                                                            "inventory.stock_transfer.complete"
                                                            ∷ (codes
                                                            "accounting.legal_entity.configure"
                                                            ∷ (codes
                                                            "accounting.financial_engine.activate"
                                                            ∷ (codes
                                                            "accounting.financial_evidence.record"
                                                            ∷ (codes
                                                            "accounting.financial_reconciliation.checkpoint"
                                                            ∷ (codes
                                                            "accounting.financial_projection.rebuild"
                                                            ∷ (codes "accounting.account.create"
                                                            ∷ (codes "accounting.journal.post"
                                                            ∷ (codes "accounting.revenue.configure"
                                                            ∷ (codes "accounting.period.open"
                                                            ∷ (codes "accounting.period.close"
                                                            ∷ (codes "accounting.revenue.post"
                                                            ∷ (codes "accounting.revenue.reverse"
                                                            ∷ []))))))))))))))))))))))))))))))))))))
                                                            ))))))))))))))))))

-- `Schema.Literals(CapabilityIds)`
unfoldable pub is_capability : Text → Bool
is_capability s = any (text_eq s) capability_ids
